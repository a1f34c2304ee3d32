-- ===== src/Sandbox/Approval/Flatten.antt =====
-- When the grants of an option say the same as its permissions.
use just_another_coding_agen.Base.{
  ◌≡◌, refl, String, false, some, List, [], ◌∷◌, contains, Distinct, All, eq_iff, arith, ok,
}
use just_another_coding_agen.Sandbox.Grants.{
  AdditionalSandboxPermissions, SandboxPermissionGrant, optional_permissions_eq_iff,
}
use just_another_coding_agen.Sandbox.Approval.{
  approved, dedupe, dedupe_from, flatten_permission_grants, validate_granted,
}

abbrev Apart : List String → List String → Type 0
Apart seen = All (λ x. contains x seen ≡ false)

Apart-cons :
    (x : String) (seen xs : List String)
    → contains x xs ≡ false
    → Apart seen xs
    → Apart (x ∷ seen) xs
Apart-cons x seen [] h a = tt
Apart-cons x seen (y ∷ ys) h (first, rest) =
    (ground (arith, eq_iff x y, eq_iff y x), Apart-cons x seen ys (ground arith) rest)

dedupe_from-Distinct :
    (seen xs : List String) → Distinct xs → Apart seen xs → dedupe_from seen xs ≡ xs
unfolding dedupe_from
dedupe_from-Distinct seen [] d a = refl
dedupe_from-Distinct seen (x ∷ xs) (fresh, d) (first, rest) =
    ground (arith, first, dedupe_from-Distinct (x ∷ seen) xs d (Apart-cons x seen xs fresh rest))

Apart-nil : (xs : List String) → Apart [] xs
Apart-nil [] = tt
Apart-nil (x ∷ xs) = (refl, Apart-nil xs)

pub dedupe-Distinct : (xs : List String) → Distinct xs → dedupe xs ≡ xs
unfolding dedupe
dedupe-Distinct xs d = dedupe_from-Distinct [] xs d (Apart-nil xs)

-- Grants that add up to the permissions pass the check of an approving option.
pub valid_of_flatten :
    (p : AdditionalSandboxPermissions) (gs : List SandboxPermissionGrant)
    → flatten_permission_grants gs ≡ some p
    → validate_granted approved (some p) gs ≡ ok tt
unfolding validate_granted
valid_of_flatten p [] h = unfold flatten_permission_grants in cc h
valid_of_flatten p (g ∷ gs) h =
    ground (arith, optional_permissions_eq_iff (flatten_permission_grants (g ∷ gs)) (some p))
