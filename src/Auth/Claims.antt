-- ===== src/Auth/Claims.antt =====
-- framework/security/jwt_provider.go: the principal and the roles in the claims of a token.
use springo.Base.{
  ℕ, Bool, true, false, List, [], ◌∷◌, ◌++◌, Text, ◌==◌, text_key, codes, any, if◌then◌else◌, ◌&&◌,
  not, has_prefix,
}

-- A claim's value: null, a string, a []string, a []any, a map, or another.
mutual
  pub data Json : Type 0 where
    null : Json
    str : Text → Json
    strs : List Text → Json
    arr : Items → Json
    obj : Fields → Json
    another : ℕ → Json

  pub data Items : Type 0 where
    no_items : Items
    item : Json → Items → Items

  pub data Fields : Type 0 where
    no_fields : Fields
    field : Text → Json → Fields → Fields

-- A map's value; null where the key is missing, as `claims[name]` has it.
unfoldable pub claim : Text → Fields → Json
claim name no_fields = null
claim name (field k v fs) = if k == name then v else claim name fs

unfoldable pub exists_claim : Text → Fields → Bool
exists_claim name no_fields = false
exists_claim name (field k v fs) = if k == name then true else exists_claim name fs

-- A value's string, empty where it is none.
abbrev pub string_of : Json → Text
string_of (str s) = s
string_of null = []
string_of (strs ss) = []
string_of (arr items) = []
string_of (obj fs) = []
string_of (another n) = []

unfoldable pub extract_named_claim : Fields → Text → Text
unfolding claim
extract_named_claim claims name = if name == [] then [] else string_of (claim name claims)

unfoldable pub extract_principal : Fields → Text → Text
unfolding extract_named_claim
extract_principal no_fields principal_claim = []
extract_principal (field k v fs) principal_claim =
    let name = extract_named_claim (field k v fs) principal_claim in
    if not (name == []) then name else extract_named_claim (field k v fs) (codes "sub")

unfoldable pub extract_strings_from_interface_slice : Items → List Text
extract_strings_from_interface_slice no_items = []
extract_strings_from_interface_slice (item v items) =
    let rest = extract_strings_from_interface_slice items in
    if string_of v == [] then rest else string_of v ∷ rest

unfoldable pub parse_string_slice_claim : Json → List Text
unfolding extract_strings_from_interface_slice
parse_string_slice_claim null = []
parse_string_slice_claim (str s) = if s == [] then [] else s ∷ []
parse_string_slice_claim (strs ss) = ss
parse_string_slice_claim (arr items) = extract_strings_from_interface_slice items
parse_string_slice_claim (obj fs) = []
parse_string_slice_claim (another n) = []

unfoldable pub get_target_client : Fields → Text → Text
unfolding claim
get_target_client claims resource_id =
    if not (resource_id == []) then resource_id else string_of (claim (codes "azp") claims)

-- The map that a value is; empty where it is none.
abbrev pub fields_of : Json → Fields
fields_of (obj fs) = fs
fields_of null = no_fields
fields_of (str s) = no_fields
fields_of (strs ss) = no_fields
fields_of (arr items) = no_fields
fields_of (another n) = no_fields

unfoldable pub extract_resource_access_roles : Fields → Text → List Text
unfolding claim get_target_client parse_string_slice_claim
extract_resource_access_roles claims resource_id =
    let client = get_target_client claims resource_id in
    if client == []
    then []
    else parse_string_slice_claim (
        claim (codes "roles")
          (fields_of (claim client (fields_of (claim (codes "resource_access") claims)))))

unfoldable pub format_role_item : Text → Text → Text
format_role_item r prefix =
    if not (prefix == []) && not (has_prefix r prefix) then prefix ++ r else r

-- The loop of formatRolesWithPrefix, with the roles seen.
unfoldable pub format_roles_from : Text → List Text → List Text → List Text
unfolding format_role_item
format_roles_from prefix seen [] = []
format_roles_from prefix seen (r ∷ roles) =
    let role = format_role_item r prefix in
    let known = any (λ s. s == role) seen in
    let rest = format_roles_from prefix (if known then seen else role ∷ seen) roles in
    if known then rest else role ∷ rest

unfoldable pub format_roles_with_prefix : List Text → Text → List Text
unfolding format_roles_from
format_roles_with_prefix roles prefix = format_roles_from prefix [] roles

-- The roles of the first source that has some.
abbrev pub or_else : List Text → List Text → List Text
or_else [] others = others
or_else (r ∷ roles) others = r ∷ roles

unfoldable pub extract_roles : Fields → Text → Text → Text → List Text
unfolding claim parse_string_slice_claim extract_resource_access_roles format_roles_with_prefix
extract_roles claims authorities_claim resource_id prefix =
    let direct : List Text =
      (if authorities_claim == []
        then []
        else parse_string_slice_claim (claim authorities_claim claims)) in
    let standard : List Text =
      (if authorities_claim == codes "roles"
        then []
        else parse_string_slice_claim (claim (codes "roles") claims)) in
    format_roles_with_prefix
      (or_else (or_else direct (extract_resource_access_roles claims resource_id)) standard) prefix
