-- ===== src/Json/OneLine.antt =====
-- The text that `json.dumps` prints stands on one line: `_canonical_json` of valp_cli/protocol_kernel.py ends it.
use Prim.Native.Char.{Char, code}
use Prim.Native.String.{◌++◌}
use text.Mathlib.TextLemmas.{nil-append, cons-append}
use visible_agent_loop_proto.Prelude.{
  ℕ, zero, suc, ◌/◌, ◌%◌, String, Bool, true, false, not, List, [], ◌∷◌, eqb, ltb, ◌&&◌, ◌≡◌, refl,
  arith, ℤ, pos, negsuc, map, all, if◌then◌else◌,
}
use visible_agent_loop_proto.Json.Text.{
  digit, numeral, decimal, escape, escaped, quoted, join, sorted, insert_by,
}
use visible_agent_loop_proto.Json.Value.{
  Json, null, int, str, arr, obj, Items, no_items, item, Fields, no_fields, field, dumps,
  dumps_items, dumps_fields, member_text,
}

-- No character of the text ends a line.
unfoldable pub one_line : String → Bool
one_line String.[] = true
one_line (String.◌∷◌ c s) = not (eqb (code c) 10) && not (eqb (code c) 13) && one_line s

pub one_line-append :
    (s t : String) → one_line s ≡ true → one_line t ≡ true → one_line (s ++ t) ≡ true
unfolding one_line
one_line-append String.[] t h k = rw (nil-append t) k
one_line-append (String.◌∷◌ c s) t h k =
    rw (cons-append c s t) (ground (arith, one_line-append s t))

one_line_either :
    (b : Bool) (s t : String)
    → one_line s ≡ true
    → one_line t ≡ true
    → one_line (if b then s else t) ≡ true
one_line_either true s t h k = h
one_line_either false s t h k = k

one_line_unless :
    (b : Bool) (s t : String)
    → one_line s ≡ true
    → (b ≡ false → one_line t ≡ true)
    → one_line (if b then s else t) ≡ true
one_line_unless true s t h k = h
one_line_unless false s t h k = k refl

one_line-digit : (d : ℕ) → one_line (digit d) ≡ true
unfolding digit one_line
one_line-digit d = one_line_either (eqb d 0) "0" _ refl (
    one_line_either (eqb d 1) "1" _ refl (
      one_line_either (eqb d 2) "2" _ refl (
        one_line_either (eqb d 3) "3" _ refl (
          one_line_either (eqb d 4) "4" _ refl (
            one_line_either (eqb d 5) "5" _ refl (
              one_line_either (eqb d 6) "6" _ refl (
                one_line_either (eqb d 7) "7" _ refl (
                  one_line_either (eqb d 8) "8" _ refl (
                    one_line_either (eqb d 9) "9" _ refl (
                      one_line_either (eqb d 10) "a" _ refl (
                        one_line_either (eqb d 11) "b" _ refl (
                          one_line_either (eqb d 12) "c" _ refl (
                            one_line_either (eqb d 13) "d" _ refl
                              (one_line_either (eqb d 14) "e" _ refl refl))))))))))))))

one_line-numeral : (fuel n : ℕ) → one_line (numeral fuel n) ≡ true
unfolding numeral
one_line-numeral zero n = one_line-digit n
one_line-numeral (suc fuel) n =
    one_line_either (ltb n 10) (digit n) (numeral fuel (n / 10) ++ digit (n % 10))
      (one_line-digit n)
      (one_line-append (numeral fuel (n / 10)) (digit (n % 10)) (one_line-numeral fuel (n / 10))
        (one_line-digit (n % 10)))

one_line-decimal : (n : ℤ) → one_line (decimal n) ≡ true
unfolding decimal one_line
one_line-decimal (pos n) = one_line-numeral n n
one_line-decimal (negsuc n) =
    one_line-append "-" (numeral (suc n) (suc n)) refl (one_line-numeral (suc n) (suc n))

one_line_char :
    (c : Char)
    → eqb (code c) 10 ≡ false
    → eqb (code c) 13 ≡ false
    → one_line (String.◌∷◌ c String.[]) ≡ true
unfolding one_line
one_line_char c h k = ground arith

one_line_control : (c : ℕ) → one_line ("\\u00" ++ digit (c / 16) ++ digit (c % 16)) ≡ true
unfolding one_line
one_line_control c = one_line-append "\\u00" (digit (c / 16) ++ digit (c % 16)) refl (
    one_line-append (digit (c / 16)) (digit (c % 16)) (one_line-digit (c / 16))
      (one_line-digit (c % 16)))

one_line-escape : (c : Char) → one_line (escape c) ≡ true
unfolding escape one_line
one_line-escape c = one_line_either (eqb (code c) 34) _ _ refl (
    one_line_either (eqb (code c) 92) _ _ refl (
      one_line_unless (eqb (code c) 10) _ _ refl λ feed.
        one_line_unless (eqb (code c) 13) _ _ refl λ return.
          one_line_either (eqb (code c) 9) _ _ refl (
            one_line_either (eqb (code c) 12) _ _ refl (
              one_line_either (eqb (code c) 8) _ _ refl (
                one_line_either (ltb (code c) 32) _ _ (one_line_control (code c))
                  (one_line_char c feed return))))))

one_line-escaped : (s : String) → one_line (escaped s) ≡ true
unfolding escaped one_line
one_line-escaped String.[] = refl
one_line-escaped (String.◌∷◌ c s) =
    one_line-append (escape c) (escaped s) (one_line-escape c) (one_line-escaped s)

one_line-quoted : (s : String) → one_line (quoted s) ≡ true
unfolding quoted one_line
one_line-quoted s =
    one_line-append "\"" (escaped s ++ "\"") refl
      (one_line-append (escaped s) "\"" (one_line-escaped s) refl)

one_line-join : (xs : List String) → all one_line xs ≡ true → one_line (join "," xs) ≡ true
unfolding join all one_line
one_line-join [] h = refl
one_line-join (s ∷ []) h = ground arith
one_line-join (s ∷ t ∷ rest) h =
    one_line-append s ("," ++ join "," (t ∷ rest)) (ground arith)
      (one_line-append "," (join "," (t ∷ rest)) refl (one_line-join (t ∷ rest) (ground arith)))

module _ {A : Type 0} (key : A → String) (p : A → Bool) where
  all-insert_by :
      (a : A) (xs : List A) → p a ≡ true → all p xs ≡ true → all p (insert_by key a xs) ≡ true
  unfolding insert_by all
  all-insert_by a [] h k = ground arith
  all-insert_by a (x ∷ xs) h k = ground (arith, all-insert_by a xs)

  all-sorted : (xs : List A) → all p xs ≡ true → all p (sorted key xs) ≡ true
  unfolding sorted all
  all-sorted [] h = refl
  all-sorted (x ∷ xs) h =
      all-insert_by x (sorted key xs) (ground arith) (all-sorted xs (ground arith))

one_line_members :
    (ms : List (String × String))
    → all (λ m. one_line m.1) ms ≡ true
    → all one_line (map member_text ms) ≡ true
unfolding all one_line
one_line_members [] h = refl
one_line_members ((key, text) ∷ ms) h = ground (
  arith,
  one_line_members ms,
  one_line-append (quoted key) (":" ++ text) (one_line-quoted key),
  one_line-append ":" text refl,
)

mutual
  unfolding dumps dumps_items dumps_fields one_line all

  -- The text that is dumped for a JSON value holds no line feed and no carriage return.
  pub one_line-dumps : (value : Json) → one_line (dumps value) ≡ true
  one_line-dumps null = refl
  one_line-dumps (int n) = one_line-decimal n
  one_line-dumps (str s) = one_line-quoted s
  one_line-dumps (arr xs) = one_line-append "[" (join "," (dumps_items xs) ++ "]") refl (
      one_line-append (join "," (dumps_items xs)) "]"
        (one_line-join (dumps_items xs) (all-dumps_items xs)) refl)
  one_line-dumps (obj fs) =
      let parts = map member_text (sorted (λ m. m.0) (dumps_fields fs)) in
      one_line-append "{" (join "," parts ++ "}") refl (
        one_line-append (join "," parts) "}"
          (one_line-join parts (
            one_line_members (sorted (λ m. m.0) (dumps_fields fs))
              (all-sorted (λ m. m.0) (λ m. one_line m.1) (dumps_fields fs) (all-dumps_fields fs))))
          refl)

  all-dumps_items : (xs : Items) → all one_line (dumps_items xs) ≡ true
  all-dumps_items no_items = refl
  all-dumps_items (item x xs) = ground (arith, one_line-dumps x, all-dumps_items xs)

  all-dumps_fields : (fs : Fields) → all (λ m. one_line m.1) (dumps_fields fs) ≡ true
  all-dumps_fields no_fields = refl
  all-dumps_fields (field key value fs) = ground (arith, one_line-dumps value, all-dumps_fields fs)
