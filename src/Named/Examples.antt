-- ===== src/Named/Examples.antt =====
-- Names by their length: one letter is not found, three are an attribute, others a type.
use cil.Base.{
  ◌≡◌, refl, ℕ, [], ◌∷◌, Option, none, some, Status, sepol_ok, sepol_err, sepol_enoent, length,
  ◌==◌, if◌then◌else◌,
}
use cil.Flavor.{Flavor, cil_type, cil_typeattribute, cil_role}
use cil.Named.{resolve_type_rule, resolve_userrole, resolve_bounds}
use cil.Text.{Text, codes}

abbrev by_length : Text → ℕ → Status × ℕ
by_length t i = if length t == 1 then (sepol_enoent, 0) else (sepol_ok, length t)

abbrev flavors : ℕ → Flavor
flavors a = if a == 3 then cil_typeattribute else cil_type

attribute_used :
    resolve_type_rule by_length flavors (codes "abc") (codes "ab") (codes "file") (codes "abcde") []
    ≡ record { status = sepol_ok; fields = 3 ∷ 2 ∷ 4 ∷ 5 ∷ []; used = 3 ∷ [] }
unfolding resolve_type_rule
attribute_used = refl

attribute_result :
    resolve_type_rule by_length flavors (codes "ab") (codes "ab") (codes "file") (codes "abc") []
    ≡ record { status = sepol_err; fields = 2 ∷ 2 ∷ 4 ∷ []; used = [] }
unfolding resolve_type_rule
attribute_result = refl

role_added :
    (resolve_userrole by_length flavors (codes "ab") (codes "abcd") (λ _. 7 ∷ []) []).1 2
    ≡ 7 ∷ 4 ∷ []
unfolding resolve_userrole
role_added = refl

abbrev unbound : ℕ → Option ℕ
unbound a = none

attribute_bound :
    (resolve_bounds by_length flavors cil_type (codes "abc") (codes "ab") unbound).0 ≡ sepol_err
unfolding resolve_bounds
attribute_bound = refl

-- Of roles the flavors are not looked at.
role_bound :
    (resolve_bounds by_length flavors cil_role (codes "abc") (codes "ab") unbound).1 2 ≡ some 3
unfolding resolve_bounds
role_bound = refl
