-- ===== src/Http/Wire.antt =====
-- `status_line`, `cors_block` and `write_reply` of src/server.cpp.
use shrt_cpp.Prelude.{ℕ, Bytes, codes, ◌++◌, Option, none, some, length, ◌==◌, if◌then◌else◌}
use shrt_cpp.Codec.Number.{itoa}
use shrt_cpp.App.Reply.{Reply}
use shrt_cpp.Http.Head.{crlf}

unfoldable pub reason : ℕ → Bytes
reason status =
    if status == 200
    then codes "200 OK"
    else if status == 201
    then codes "201 Created"
    else if status == 204
    then codes "204 No Content"
    else if status == 302
    then codes "302 Found"
    else if status == 400
    then codes "400 Bad Request"
    else if status == 404
    then codes "404 Not Found"
    else if status == 409
    then codes "409 Conflict"
    else if status == 413
    then codes "413 Payload Too Large"
    else if status == 429
    then codes "429 Too Many Requests"
    else if status == 503
    then codes "503 Service Unavailable"
    else codes "500 Internal Server Error"

unfoldable pub status_line : ℕ → Bytes
status_line status = codes "HTTP/1.1 " ++ (reason status ++ crlf)

-- `origin` is the setting CORS_ORIGIN.
unfoldable pub cors_block : Bytes → Bytes
cors_block origin =
    codes "access-control-allow-origin: "
    ++ (origin
        ++ (crlf
            ++ (codes "access-control-allow-methods: GET,POST,PATCH,DELETE,OPTIONS"
                ++ (crlf
                    ++ (codes "access-control-allow-headers: content-type,x-admin-token"
                        ++ (crlf ++ (codes "access-control-max-age: 86400" ++ crlf)))))))

abbrev pub content_type : Option Bytes → Bytes
content_type none = codes "application/json"
content_type (some t) = t

unfoldable pub write_rest : Reply → Option Bytes → Bytes
write_rest r (some target) =
    codes "location: " ++ (target ++ (crlf ++ (codes "content-length: 0" ++ (crlf ++ crlf))))
write_rest r none =
    codes "content-type: "
    ++ (content_type r.ctype
        ++ (crlf
            ++ (codes "content-length: " ++ (itoa (length r.body) ++ (crlf ++ (crlf ++ r.body))))))

unfoldable pub write_reply : Bytes → Reply → Bytes
write_reply origin r = status_line r.status ++ (cors_block origin ++ write_rest r r.location)
