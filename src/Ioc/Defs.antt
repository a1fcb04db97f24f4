-- ===== src/Ioc/Defs.antt =====
-- container.go: the state, the registration of definitions and beans, and the search by type.
use springo.Base.{
  ℕ, Bool, true, false, List, [], ◌∷◌, ◌++◌, Option, none, some, Text, ◌==◌, text_key, nat_key,
  lookup, insert, any, if◌then◌else◌, ◌&&◌, not, Iteration,
}

pub data Scope : Type 0 where
  singleton prototype request : Scope
  unsupported : Text → Scope

-- A parameter of a factory: its type, and whether that is *gorm.DB or implements context.Context.
pub record Param : Type 0 where
  pub type : ℕ
  pub is_db : Bool
  pub is_context : Bool

pub data Arg : Type 0 where
  db_arg context_arg : Arg
  bean_arg : ℕ → Arg

-- A function that is registered: its signature, and what a call returns, given the number of the
-- calls before it: the bean, and the error where there is one.
pub record Signature : Type 0 where
  pub params : List Param
  pub outs : ℕ
  pub out_type : ℕ
  pub call : List Arg → ℕ → ℕ × Option Text

pub data Factory : Type 0 where
  nil_factory not_function : Factory
  function : Signature → Factory

pub data Error : Type 0 where
  not_registered circular outside_request no_factory is_no_function bad_returns : Text → Error
  unsupported_scope factory_failed : Text → Text → Error
  no_bean_of ambiguous not_assignable : ℕ → Error
  unresolvable dependency injection : Text → Error → Error

pub record BeanDefinition : Type 0 where
  pub name : Text
  pub scope : Scope
  pub factory : Factory
  -- Whether `once` is done, and what it left.
  pub once : Bool
  pub instance_ : Option ℕ
  pub err : Option Error

-- A field with a `spring` tag that can be set.
pub record Field : Type 0 where
  pub tag : Text
  pub type : ℕ
  pub is_provider : Bool

pub record Reflect : Type 0 where
  pub assignable : ℕ → ℕ → Bool
  pub type_of : ℕ → ℕ
  pub type_name : ℕ → Text
  pub equal_fold : Text → Text → Bool
  pub fields : ℕ → List Field
  pub definitions_order : Iteration (Text × BeanDefinition)
  pub beans_order : Iteration (Text × ℕ)

-- `request` is the registry of the request in the context, if there is one; `built` are the names
-- whose factories were called, newest first, and `injected` the fields that were set.
pub record Container : Type 0 where
  pub beans : List (Text × ℕ)
  pub definitions : List (Text × BeanDefinition)
  pub type_matches : List (ℕ × List Text)
  pub db : Option ℕ
  pub request : Option (List (Text × ℕ))
  pub next : ℕ
  pub built : List Text
  pub injected : List (ℕ × Text × ℕ)

unfoldable pub register_bean_definition : Text → Factory → Scope → Container → Container
register_bean_definition name factory scope c = record c {
  definitions =
      insert name
        (record {
          name = name;
          scope = scope;
          factory = factory;
          once = false;
          instance_ = none;
          err = none;
        })
        c.definitions;
  type_matches = [];
}

-- The definition of a bean that is registered as an instance.
abbrev pub of_instance : Text → ℕ → BeanDefinition
of_instance name bean = record {
  name = name;
  scope = singleton;
  factory = nil_factory;
  once = true;
  instance_ = some bean;
  err = none;
}

unfoldable pub register_bean : Text → ℕ → Container → Container
register_bean name bean c = record c {
  beans = insert name bean c.beans;
  definitions = elim (lookup name c.definitions) [
    | some _ ↦ c.definitions
    | none ↦ insert name (of_instance name bean) c.definitions
  ];
  type_matches = [];
}

unfoldable pub replace_bean : Text → ℕ → Container → Container
replace_bean name mock c = record c {
  beans = insert name mock c.beans;
  definitions = elim (lookup name c.definitions) [
    | some def ↦ insert name (record def { instance_ = some mock }) c.definitions
    | none ↦ insert name (of_instance name mock) c.definitions
  ];
  type_matches = [];
}

-- The loop of Clear over the definitions.
unfoldable pub reset_definitions : List (Text × BeanDefinition) → List (Text × BeanDefinition)
reset_definitions [] = []
reset_definitions ((name, def) ∷ defs) =
    (name, record def { once = false; instance_ = none; err = none }) ∷ reset_definitions defs

unfoldable pub clear : Container → Container
unfolding reset_definitions
clear c = record c {
  beans = [];
  definitions = reset_definitions c.definitions;
  db = none;
  type_matches = [];
}

unfoldable pub reset_all : Container → Container
reset_all c = record c { beans = []; definitions = []; db = none; type_matches = [] }

unfoldable pub create_request_registry : Container → Container
create_request_registry c = record c { request = some [] }

unfoldable pub destroy_request_registry : Container → Container
destroy_request_registry c = record c { request = none }

unfoldable pub set_db : Option ℕ → Container → Container
set_db db c = record c { db = db }

-- GetDB; `is_db` tells whether a bean is a *gorm.DB.
unfoldable pub get_db : (ℕ → Bool) → Container → Option ℕ
get_db is_db c = elim c.db [
  | some db ↦ some db
  | none ↦ elim (lookup (68 ∷ 66 ∷ []) c.beans) [
    | none ↦ none
    | some bean ↦ if is_db bean then some bean else none
  ]
]

pub data Found : Type 0 where
  found : Text → Found
  missed : Error → Found

module _ (r : Reflect) where
  unfoldable pub is_definition_assignable : BeanDefinition → ℕ → Bool
  is_definition_assignable def type =
      let by_factory : Bool = elim def.factory [
        | function sig ↦ if sig.outs == 0 then false else r.assignable sig.out_type type
        | _ ↦ false
      ] in
      elim def.instance_ [
        | some bean ↦ if r.assignable (r.type_of bean) type then true else by_factory
        | none ↦ by_factory
      ]

  unfoldable pub match_definitions : ℕ → List (Text × BeanDefinition) → List Text
  unfolding is_definition_assignable
  match_definitions type [] = []
  match_definitions type ((name, def) ∷ defs) =
      let rest = match_definitions type defs in
      if is_definition_assignable def type then name ∷ rest else rest

  unfoldable pub is_bean_instance_assignable : ℕ → ℕ → List Text → Text → Bool
  is_bean_instance_assignable bean type existing name =
      not (any (λ matched. matched == name) existing) && r.assignable (r.type_of bean) type

  -- The loop over the beans, with the matches so far.
  unfoldable pub match_beans : ℕ → List Text → List (Text × ℕ) → List Text
  unfolding is_bean_instance_assignable
  match_beans type matches [] = matches
  match_beans type matches ((name, bean) ∷ beans) =
      match_beans type
        (if is_bean_instance_assignable bean type matches name
          then matches ++ name ∷ []
          else matches)
        beans

  unfoldable pub find_matching_bean_names : ℕ → Container → List Text × Container
  unfolding match_definitions match_beans
  find_matching_bean_names type c = elim (lookup type c.type_matches) [
    | some matches ↦ (matches, c)
    | none ↦
        let matches =
          match_beans type (match_definitions type (r.definitions_order.visit c.definitions))
            (r.beans_order.visit c.beans) in
        (matches, record c { type_matches = insert type matches c.type_matches })
  ]

  -- The loop of selectBestNameMatch.
  unfoldable pub select_best_name_match : List Text → ℕ → Option Text
  select_best_name_match [] type = none
  select_best_name_match (name ∷ names) type =
      let rest = select_best_name_match names type in
      if r.equal_fold name (r.type_name type) then some name else rest

  unfoldable pub choose : ℕ → List Text → Found
  unfolding select_best_name_match
  choose type [] = missed (no_bean_of type)
  choose type (name ∷ []) = found name
  choose type (name ∷ other ∷ names) = elim (select_best_name_match (name ∷ other ∷ names) type) [
    | some best ↦ found best
    | none ↦ missed (ambiguous type)
  ]

  unfoldable pub find_bean_name_by_type : ℕ → Container → Found × Container
  unfolding find_matching_bean_names choose
  find_bean_name_by_type type c =
      let (matches, c') = find_matching_bean_names type c in (choose type matches, c')
