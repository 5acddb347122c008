-- ===== src/Literal/Text/RoundTrip.antt =====
-- What `decode_text_literal` (src/lexer/literal.cc) makes of literals without escapes.
use mathlib.Core.List.{append-nil, append_assoc}
use c_cloth.Base.{
  ℕ, zero, suc, ◌+◌, ◌-◌, ◌/◌, ◌≤◌, ◌<◌, ◌≡◌, refl, ap, ◌∙◌, sym, Bool, true, false, not, leb, ◌==◌,
  ◌&&◌, ◌||◌, List, [], ◌∷◌, ◌++◌, length, length-append, take, some, arith, All, if◌then◌else◌,
}
use c_cloth.Base.Words.{bit_or_join}
use c_cloth.Base.Text.{Bytes}
use c_cloth.Unicode.{is_unicode_scalar, decode_utf8_scalar, utf8_bytes}
use c_cloth.Unicode.RoundTrip.{
  decode-utf8_bytes, encode_all, Scalars, length-utf8_bytes, drop-length,
}
use c_cloth.Literal.{TextLiteralKind, string, character, no_error, DecodedTextLiteral, empty_text}
use c_cloth.Literal.Text.{
  TextStep, scalar, text_step, plain, text_loop, finish_text, is_character, split_last,
  decode_text_literal, delimiter_of,
}

-- What a literal holds as it is: all but the backslash, its delimiter and the ends of lines.
abbrev pub stands_plain : ℕ → ℕ → Bool
stands_plain delimiter v = not (v == b'\\' || v == delimiter || v == b'\r' || v == b'\n')

abbrev front_plain : ℕ → Bytes → Bool
front_plain delimiter [] = false
front_plain delimiter (c ∷ text) = stands_plain delimiter c

front_plain-utf8_bytes :
    (delimiter v : ℕ)
    → delimiter < 128
    → is_unicode_scalar v ≡ true
    → stands_plain delimiter v ≡ true
    → front_plain delimiter (utf8_bytes v) ≡ true
unfolding utf8_bytes is_unicode_scalar
front_plain-utf8_bytes delimiter v d h p =
    ground
      (arith, bit_or_join 5 6 (v / 64), bit_or_join 4 14 (v / 4096), bit_or_join 3 30 (v / 262144))

take-length : (xs ys : Bytes) → take (length xs) (xs ++ ys) ≡ xs
take-length [] ys = refl
take-length (x ∷ xs) ys = ap (◌∷◌ x) (take-length xs ys)

abbrev read : DecodedTextLiteral → ℕ → Bytes → DecodedTextLiteral
read result value bytes = record result {
  utf8 = result.utf8 ++ bytes;
  scalar_count = suc result.scalar_count;
  character = value;
}

text_step-plain :
    (delimiter c value : ℕ) (cs rest : Bytes)
    → stands_plain delimiter c ≡ true
    → decode_utf8_scalar (c ∷ cs ++ rest) ≡ some (record { value = value; width = suc (length cs) })
    → text_step delimiter c (cs ++ rest) ≡ scalar value (c ∷ cs) (suc (length cs)) rest
unfolding text_step plain
text_step-plain delimiter c value cs rest p e =
    rw (e, step_test (c == b'\\') (c == delimiter) (c == b'\r') (c == b'\n') _ _ _ p)
      (rw (take-length (c ∷ cs) rest, drop-length (c ∷ cs) rest) refl)
  where
    step_test :
        (a b c d : Bool) (x y z : TextStep)
        → not (a || b || c || d) ≡ true
        → (if a then x else if b || c || d then y else z) ≡ z
    step_test a b c d x y z h = ground arith

-- One round of the loop at bytes that decode to a scalar.
text_loop-step :
    (fuel : ℕ) (kind : TextLiteralKind) (delimiter offset value : ℕ) (taken rest : Bytes)
    (result : DecodedTextLiteral)
    → front_plain delimiter taken ≡ true
    → decode_utf8_scalar (taken ++ rest) ≡ some (record { value = value; width = length taken })
    → (is_character kind && leb 2 (suc result.scalar_count)) ≡ false
    → text_loop (suc fuel) kind delimiter offset (taken ++ rest) result
      ≡ text_loop fuel kind delimiter (offset + length taken) rest (read result value taken)
unfolding text_loop
text_loop-step fuel kind delimiter offset value [] rest result p e k = cc
text_loop-step fuel kind delimiter offset value (c ∷ cs) rest result p e k =
    rw (text_step-plain delimiter c value cs rest p e, text_loop) (rw k refl)

abbrev pub last_or : ℕ → List ℕ → ℕ
last_or d [] = d
last_or d (v ∷ vs) = last_or v vs

-- A string that stands for these scalar values as they are.
abbrev pub PlainText : List ℕ → Type 0
PlainText = All (λ v. stands_plain b'"' v ≡ true)

abbrev read_all : DecodedTextLiteral → List ℕ → DecodedTextLiteral
read_all result vs = record result {
  utf8 = result.utf8 ++ encode_all vs;
  scalar_count = result.scalar_count + length vs;
  character = last_or result.character vs;
}

read_all-nil : (result : DecodedTextLiteral) → read_all result [] ≡ result
read_all-nil result =
    let count : result.scalar_count + 0 ≡ result.scalar_count = omega arith in
    rw (append-nil result.utf8, count) refl

read-read_all :
    (result : DecodedTextLiteral) (v : ℕ) (vs : List ℕ)
    → read_all (read result v (utf8_bytes v)) vs ≡ read_all result (v ∷ vs)
read-read_all result v vs =
    let count : suc result.scalar_count + length vs ≡ result.scalar_count + suc (length vs) =
      omega arith in
    rw (append_assoc result.utf8 (utf8_bytes v) (encode_all vs), count) refl

text_loop-nil :
    (fuel offset : ℕ) (result : DecodedTextLiteral)
    → text_loop fuel string b'"' offset [] result ≡ result
unfolding text_loop finish_text
text_loop-nil zero offset result = refl
text_loop-nil (suc fuel) offset result = refl

text_loop-encode_all :
    (vs : List ℕ) (fuel offset : ℕ) (result : DecodedTextLiteral)
    → Scalars vs
    → PlainText vs
    → length (encode_all vs) ≤ fuel
    → text_loop fuel string b'"' offset (encode_all vs) result ≡ read_all result vs
text_loop-encode_all [] fuel offset result h p f =
    text_loop-nil fuel offset result ∙ sym (read_all-nil result)
text_loop-encode_all (v ∷ vs) zero offset result h p f =
    absurd (omega (arith, length-utf8_bytes v, length-append (utf8_bytes v) (encode_all vs)))
text_loop-encode_all (v ∷ vs) (suc fuel) offset result h p f =
    text_loop-step fuel string b'"' offset v (utf8_bytes v) (encode_all vs) result
      (front_plain-utf8_bytes b'"' v (omega arith) h.0 p.0)
      (decode-utf8_bytes v (encode_all vs) h.0) refl
    ∙ text_loop-encode_all vs fuel (offset + length (utf8_bytes v)) (read result v (utf8_bytes v))
        h.1 p.1 (omega (arith, length-utf8_bytes v, length-append (utf8_bytes v) (encode_all vs)))
    ∙ read-read_all result v vs

split_last-append : (c : ℕ) (xs : Bytes) (q : ℕ) → split_last c (xs ++ q ∷ []) ≡ (c ∷ xs, q)
unfolding split_last
split_last-append c [] q = refl
split_last-append c (x ∷ xs) q = rw (split_last-append x xs q) refl

-- A body between two delimiters.
abbrev pub delimited : TextLiteralKind → Bytes → Bytes
delimited kind body = delimiter_of kind ∷ (body ++ delimiter_of kind ∷ [])

decode-delimited :
    (kind : TextLiteralKind) (body : Bytes)
    → decode_text_literal (delimited kind body) kind
      ≡ text_loop (length body) kind (delimiter_of kind) 1 body empty_text
unfolding decode_text_literal split_last
decode-delimited string [] = refl
decode-delimited character [] = refl
decode-delimited string (d ∷ body) = rw (split_last-append d body b'"') refl
decode-delimited character (d ∷ body) = rw (split_last-append d body b'\'') refl

-- A string literal of scalar values other than the backslash, the quote and the ends of lines decodes
-- to the same text, with the number of its values and the last of them.
pub decode-string :
    (vs : List ℕ)
    → Scalars vs
    → PlainText vs
    → decode_text_literal (delimited string (encode_all vs)) string ≡ record {
      error = no_error;
      error_offset = 0;
      utf8 = encode_all vs;
      scalar_count = length vs;
      character = last_or 0 vs;
    }
decode-string vs h p =
    decode-delimited string (encode_all vs)
    ∙ text_loop-encode_all vs (length (encode_all vs)) 1 empty_text h p (omega arith)
    ∙ ap (λ (n : ℕ). record (read_all empty_text vs) { scalar_count = n }) (omega arith)

enough_fuel : (n : ℕ) → 0 < n → suc (n - 1) ≡ n
enough_fuel n h = omega arith

text_loop-end :
    (fuel offset value : ℕ) (bytes : Bytes)
    → text_loop fuel character b'\'' offset [] (read empty_text value bytes)
      ≡ read empty_text value bytes
unfolding text_loop finish_text
text_loop-end zero offset value bytes = refl
text_loop-end (suc fuel) offset value bytes = refl

-- A character literal of one such value decodes to it, and to its encoding.
pub decode-character :
    (v : ℕ)
    → is_unicode_scalar v ≡ true
    → stands_plain b'\'' v ≡ true
    → decode_text_literal (delimited character (utf8_bytes v)) character ≡ record {
      error = no_error;
      error_offset = 0;
      utf8 = utf8_bytes v;
      scalar_count = 1;
      character = v;
    }
decode-character v h p =
    let bytes = utf8_bytes v in
    decode-delimited character bytes
    ∙ ap (λ n. text_loop n character b'\'' 1 bytes empty_text)
        (sym (enough_fuel (length bytes) (length-utf8_bytes v)))
    ∙ ap (λ t. text_loop (suc (length bytes - 1)) character b'\'' 1 t empty_text)
        (sym (append-nil bytes))
    ∙ text_loop-step (length bytes - 1) character b'\'' 1 v bytes [] empty_text
        (front_plain-utf8_bytes b'\'' v (omega arith) h p) (decode-utf8_bytes v [] h) refl
    ∙ text_loop-end (length bytes - 1) (1 + length bytes) v bytes
