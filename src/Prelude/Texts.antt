-- ===== src/Prelude/Texts.antt =====
-- Texts: splitting at and joining with "/", as `split("/")` and `join("/")`.
use Prim.Native.Char.{Char, code}
use Prim.Native.String
use Prim.Native.String.{String, [], ◌∷◌}
use mathlib.Core.Path.{◌≡◌, refl, sym, ap, ◌∙◌}
use mathlib.Core.Bool.{Bool, true, false, not, ◌&&◌}
use mathlib.Core.Logic.{inl, inr}
use Prim.Native.Nat.{◌<◌}
use native.Mathlib.Omega.{arith}
use mathlib.Core.List.{List, [], ◌∷◌}
use text.Mathlib.TextLemmas.{nil-append, cons-append}
use vda_5050_lib_2_0_0_js.Prelude.Tests.{eqb, if◌then◌else◌, and-eq-true, Bool-cases}
use vda_5050_lib_2_0_0_js.Prelude.Lists.{All, length}

abbrev pub append : String → String → String
append = String.◌++◌

-- Every character of a text passes a test.
abbrev pub every_char : (Char → Bool) → String → Bool
every_char p [] = true
every_char p (c ∷ s) = p c && every_char p s

unfoldable pub is_slash : Char → Bool
is_slash c = eqb (code c) b'/'

abbrev pub push_head : Char → List String → List String
push_head c [] = (c ∷ "") ∷ []
push_head c (s ∷ parts) = (c ∷ s) ∷ parts

unfoldable pub split_slash : String → List String
split_slash [] = "" ∷ []
split_slash (c ∷ s) = let rest = split_slash s in if is_slash c then "" ∷ rest else push_head c rest

unfoldable pub join_slash : List String → String
join_slash [] = ""
join_slash (s ∷ []) = s
join_slash (s ∷ t ∷ parts) = append s (append "/" (join_slash (t ∷ parts)))

abbrev pub no_slash : String → Bool
no_slash s = every_char (λ c. not (is_slash c)) s

-- A text that is one topic level.
abbrev pub NoSlash : String → Type 0
NoSlash s = no_slash s ≡ true

not-eq-true : (b : Bool) → not b ≡ true → b ≡ false
not-eq-true true h = sym h
not-eq-true false h = refl

split_slash_level : (s : String) → NoSlash s → split_slash s ≡ s ∷ []
unfolding split_slash
split_slash_level [] h = refl
split_slash_level (c ∷ s) h =
    let (here, later) = and-eq-true (not (is_slash c)) (no_slash s) h in
    rw (not-eq-true (is_slash c) here, split_slash_level s later) refl

split_slash_step :
    (c : Char) (s r : String) {parts : List String}
    → is_slash c ≡ false
    → split_slash (append s r) ≡ s ∷ parts
    → split_slash (append (c ∷ s) r) ≡ (c ∷ s) ∷ parts
unfolding split_slash
split_slash_step c s r h e = rw (cons-append, h, e) refl

split_slash-append :
    (s t : String) → NoSlash s → split_slash (append s (append "/" t)) ≡ s ∷ split_slash t
unfolding split_slash is_slash
split_slash-append [] t h = rw (nil-append, cons-append, nil-append) refl
split_slash-append (c ∷ s) t h =
    let (here, later) = and-eq-true (not (is_slash c)) (no_slash s) h in
    split_slash_step c s (append "/" t) (not-eq-true (is_slash c) here)
      (split_slash-append s t later)

-- Splitting undoes joining on levels that hold no slash.
split_slash-join_slash :
    (s : String) (parts : List String)
    → All NoSlash (s ∷ parts)
    → split_slash (join_slash (s ∷ parts)) ≡ s ∷ parts
unfolding join_slash
split_slash-join_slash s [] (h, _) = split_slash_level s h
split_slash-join_slash s (t ∷ parts) (h, k) =
    split_slash-append s (join_slash (t ∷ parts)) h
    ∙ ap (λ r. s ∷ r) (split_slash-join_slash t parts k)

split_cons :
    (c : Char) (parts : List String)
    → All NoSlash parts
    → All NoSlash (if is_slash c then "" ∷ parts else push_head c parts)
split_cons c [] h = elim (Bool-cases (is_slash c)) [
  | inl slash ↦ rw slash (refl, tt)
  | inr plain ↦ rw (plain, plain) (refl, tt)
]
split_cons c (s ∷ parts) (h, k) = elim (Bool-cases (is_slash c)) [
  | inl slash ↦ rw slash (refl, (h, k))
  | inr plain ↦ rw (plain, plain) (h, k)
]

length-push_head : (c : Char) (parts : List String) → 0 < length (push_head c parts)
length-push_head c [] = omega arith
length-push_head c (s ∷ parts) = omega arith

-- No part of a split text holds a slash.
pub split_slash-NoSlash : (s : String) → All NoSlash (split_slash s)
unfolding split_slash
split_slash-NoSlash [] = (refl, tt)
split_slash-NoSlash (c ∷ s) = split_cons c (split_slash s) (split_slash-NoSlash s)

pub length-split_slash : (s : String) → 0 < length (split_slash s)
unfolding split_slash
length-split_slash [] = omega arith
length-split_slash (c ∷ s) = elim (Bool-cases (is_slash c)) [
  | inl slash ↦ rw slash (omega arith)
  | inr plain ↦ rw plain (length-push_head c (split_slash s))
]

pub split-join :
    (parts : List String)
    → 0 < length parts
    → All NoSlash parts
    → split_slash (join_slash parts) ≡ parts
split-join [] h k = absurd (omega arith)
split-join (p ∷ parts) h k = split_slash-join_slash p parts k
