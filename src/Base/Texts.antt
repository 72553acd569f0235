-- ===== src/Base/Texts.antt =====
-- Texts: the native strings, which are compared as wholes, and the list functions on them.
use Prim.Native.String.{String}
use text.Mathlib.Text.{◌==◌}
use text.Mathlib.TextEquality.{eq_iff}
use mathlib.Core.Path.{◌≡◌, sym}
use mathlib.Core.Logic.{◌↔◌, inl, inr}
use mathlib.Core.Bool.{Bool, true, false}
use mathlib.Core.List.{List, [], ◌∷◌}
use teleparse.Base.Tests.{if◌then◌else◌, Bool-cases}

abbrev pub same : String → String → Bool
same s t = s == t

pub same_iff : (s t : String) → (same s t ≡ true) ↔ (s ≡ t)
same_iff s t = eq_iff s t

abbrev pub is_empty : String → Bool
is_empty s = same s ""

abbrev pub is_nil {ℓ} : {A : Type ℓ} → List A → Bool
is_nil [] = true
is_nil (x ∷ xs) = false

-- `any p xs`: some entry satisfies `p`.
abbrev pub any {ℓ} : {A : Type ℓ} → (A → Bool) → List A → Bool
any p [] = false
any p (x ∷ xs) = if p x then true else any p xs

abbrev pub every {ℓ} : {A : Type ℓ} → (A → Bool) → List A → Bool
every p [] = true
every p (x ∷ xs) = if p x then every p xs else false

pub same_sym : (a b : String) → same a b ≡ same b a
same_sym a b = elim (Bool-cases (same a b)) [
  | inl e ↦ let back = (same_iff b a).1 (sym ((same_iff a b).0 e)) in cc
  | inr e ↦ elim (Bool-cases (same b a)) [
    | inl f ↦ let back = (same_iff a b).1 (sym ((same_iff b a).0 f)) in cc
    | inr f ↦ cc
  ]
]
