-- ===== src/App/Json/Fuel.antt =====
-- `Jp` of src/app.cpp and the fuel of its model.
use shrt_cpp.Prelude.{
  ℕ, zero, suc, ◌+◌, ◌≤◌, true, false, [], ◌∷◌, Option, none, some, ◌≢◌, arith, Bytes, codes,
  length, ◌==◌,
}
use shrt_cpp.App.Json.{
  Strtod, Js, Members, no_js, no_members, bool, nul, push_js, push_member, ws, Got, out_of_fuel,
  failed, got, Mode, Parser, open_arr, open_obj, read_value, after_item, add_item, after_member,
  add_member, after_key, read_member, parse_step, parse, parse_fuel,
}
use shrt_cpp.App.Json.Sizes.{
  IsStrtod, Fits, failed-Fits, got-Fits, Fits-weaken, if-Fits, length-ws, Left, Left-suc,
  as_str-Fits, as_num-Fits, read_str-Left, lit-Fits,
}

-- Twice the length and a bit more: a step either takes a byte or leaves a loop for a value.
need : Mode → Bytes → ℕ
need Mode.value s = length s + length s + 1
need (Mode.items acc) s = length s + length s + 2
need (Mode.members acc) s = length s + length s + 2

module _ (fuel : ℕ) (rec_ : Parser)
    (h : (m : Mode) (s : Bytes) → need m s ≤ fuel → Fits (length s) (rec_ m s)) where
  open_arr-Fits : (s : Bytes) → length s + length s + 2 ≤ fuel → Fits (length s) (open_arr rec_ s)
  unfolding open_arr
  open_arr-Fits [] k = h (Mode.items no_js) [] (unfold need in k)
  open_arr-Fits (c ∷ s) k =
      if-Fits _ _ _ _ (got-Fits _ _ _ (omega arith))
        (h (Mode.items no_js) (c ∷ s) (unfold need in k))

  open_obj-Fits : (s : Bytes) → length s + length s + 2 ≤ fuel → Fits (length s) (open_obj rec_ s)
  unfolding open_obj
  open_obj-Fits [] k = h (Mode.members no_members) [] (unfold need in k)
  open_obj-Fits (c ∷ s) k =
      if-Fits _ _ _ _ (got-Fits _ _ _ (omega arith))
        (h (Mode.members no_members) (c ∷ s) (unfold need in k))

  after_item-Fits :
      (acc : Js) (s : Bytes) → length s + length s ≤ fuel → Fits (length s) (after_item rec_ acc s)
  unfolding after_item
  after_item-Fits acc [] k = failed-Fits _
  after_item-Fits acc (c ∷ s) k =
      if-Fits _ _ _ _
        (Fits-weaken _ _ _ (omega arith) (h (Mode.items acc) s (unfold need in omega (arith, k))))
        (if-Fits _ _ _ _ (got-Fits _ _ _ (omega arith)) (failed-Fits _))

  after_member-Fits :
      (acc : Members) (s : Bytes)
      → length s + length s ≤ fuel
      → Fits (length s) (after_member rec_ acc s)
  unfolding after_member
  after_member-Fits acc [] k = failed-Fits _
  after_member-Fits acc (c ∷ s) k =
      if-Fits _ _ _ _
        (Fits-weaken _ _ _ (omega arith) (h (Mode.members acc) s (unfold need in omega (arith, k))))
        (if-Fits _ _ _ _ (got-Fits _ _ _ (omega arith)) (failed-Fits _))

  add_item-Fits :
      (n : ℕ) (acc : Js) (g : Got) → n + n ≤ fuel → Fits n g → Fits n (add_item rec_ acc g)
  unfolding Fits add_item
  add_item-Fits n acc out_of_fuel k f = f
  add_item-Fits n acc failed k f = tt
  add_item-Fits n acc (got v r) k f =
      Fits-weaken (length (ws r)) n _ (omega (arith, length-ws r, f))
        (after_item-Fits (push_js acc v) (ws r) (omega (arith, length-ws r, f, k)))

  add_member-Fits :
      (n : ℕ) (acc : Members) (key : Bytes) (g : Got)
      → n + n ≤ fuel
      → Fits n g
      → Fits n (add_member rec_ acc key g)
  unfolding Fits add_member
  add_member-Fits n acc key out_of_fuel k f = f
  add_member-Fits n acc key failed k f = tt
  add_member-Fits n acc key (got v r) k f =
      Fits-weaken (length (ws r)) n _ (omega (arith, length-ws r, f))
        (after_member-Fits (push_member acc key v) (ws r) (omega (arith, length-ws r, f, k)))

  after_key-Fits :
      (acc : Members) (key s : Bytes)
      → length s + length s + 1 ≤ fuel
      → Fits (length s) (after_key rec_ acc key s)
  unfolding after_key
  after_key-Fits acc key [] k = failed-Fits _
  after_key-Fits acc key (c ∷ s) k =
      if-Fits _ _ _ _
        (Fits-weaken (length s) _ _ (omega arith) (
          add_member-Fits (length s) acc key _ (omega (arith, k))
            (h Mode.value s (unfold need in omega (arith, k)))))
        (failed-Fits _)

  read_member-Fits :
      (n : ℕ) (acc : Members) (o : Option (Bytes × Bytes))
      → n + n ≤ fuel + 1
      → Left n o
      → Fits n (read_member rec_ acc o)
  unfolding Left read_member
  read_member-Fits n acc none k f = failed-Fits _
  read_member-Fits n acc (some (x, r)) k f =
      Fits-weaken (length (ws r)) n _ (omega (arith, length-ws r, f))
        (after_key-Fits acc x (ws r) (omega (arith, length-ws r, f, k)))

  module _ (strtod : Strtod) (hs : IsStrtod strtod) where
    read_value-Fits :
        (s : Bytes) → length s + length s ≤ fuel → Fits (length s) (read_value strtod rec_ s)
    unfolding read_value
    read_value-Fits [] k = failed-Fits _
    read_value-Fits (c ∷ s) k =
        if-Fits _ _ _ _
          (Fits-weaken (length (ws s)) _ _ (omega (arith, length-ws s))
            (open_obj-Fits (ws s) (omega (arith, length-ws s, k))))
          (if-Fits _ _ _ _
            (Fits-weaken (length (ws s)) _ _ (omega (arith, length-ws s))
              (open_arr-Fits (ws s) (omega (arith, length-ws s, k))))
            (if-Fits _ _ _ _ (as_str-Fits _ _ (Left-suc _ _ (read_str-Left (c ∷ s)))) (
              if-Fits _ (c == b't') _ _ (lit-Fits (codes "true") (bool true) (c ∷ s)) (
                if-Fits _ (c == b'f') _ _ (lit-Fits (codes "false") (bool false) (c ∷ s)) (
                  if-Fits _ (c == b'n') _ _ (lit-Fits (codes "null") nul (c ∷ s))
                    (as_num-Fits _ _ (hs (c ∷ s))))))))

    parse_step-Fits :
        (m : Mode) (s : Bytes) → need m s ≤ suc fuel → Fits (length s) (parse_step strtod rec_ m s)
    unfolding need parse_step
    parse_step-Fits Mode.value s k =
        Fits-weaken (length (ws s)) _ _ (length-ws s)
          (read_value-Fits (ws s) (omega (arith, length-ws s, k)))
    parse_step-Fits (Mode.items acc) s k =
        add_item-Fits (length s) acc _ (omega (arith, k)) (h Mode.value s (omega (arith, k)))
    parse_step-Fits (Mode.members acc) s k = Fits-weaken (length (ws s)) _ _ (length-ws s) (
        read_member-Fits (length (ws s)) acc _ (omega (arith, length-ws s, k))
          (read_str-Left (ws s)))

parse-Fits :
    (strtod : Strtod) (fuel : ℕ)
    → IsStrtod strtod
    → (m : Mode) (s : Bytes) → need m s ≤ fuel
    → Fits (length s) (parse strtod fuel m s)
unfolding parse
parse-Fits strtod zero hs Mode.value s k = absurd (unfold need in omega (arith, k))
parse-Fits strtod zero hs (Mode.items acc) s k = absurd (unfold need in omega (arith, k))
parse-Fits strtod zero hs (Mode.members acc) s k = absurd (unfold need in omega (arith, k))
parse-Fits strtod (suc fuel) hs m s k =
    parse_step-Fits fuel (parse strtod fuel) (parse-Fits strtod fuel hs) strtod hs m s k

Fits-ends : (n : ℕ) (g : Got) → Fits n g → g ≢ out_of_fuel
unfolding Fits
Fits-ends n out_of_fuel f e = f
Fits-ends n failed f e = cc
Fits-ends n (got v r) f e = cc

-- The reader of request bodies comes to a value or a failure on every text: it never runs out of the
-- fuel that jparse gives, as long as strtod leaves no more text than it is given.
pub parse_fuel_enough :
    (strtod : Strtod) (s : Bytes)
    → IsStrtod strtod
    → parse strtod (parse_fuel s) Mode.value s ≢ out_of_fuel
parse_fuel_enough strtod s hs =
    Fits-ends (length s) _
      (parse-Fits strtod (parse_fuel s) hs Mode.value s (unfold need in omega arith))
