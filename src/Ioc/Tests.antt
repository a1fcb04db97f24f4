-- ===== src/Ioc/Tests.antt =====
-- A container with a repository, a service that takes it, and two beans that need each other; and
-- the theorems applied to it.
use springo.Base.{
  ℕ, ◌≡◌, refl, false, List, [], ◌∷◌, Option, none, some, Text, ◌==◌, nat_key, codes, in_order,
  executable,
}
use springo.Ioc.Defs.{
  Reflect, Container, Factory, function, singleton, circular, dependency, Error, Param,
  BeanDefinition, register_bean_definition, register_bean, find_bean_name_by_type,
}
use springo.Ioc.Resolve.{Outcome, ok, fails, get_bean_scoped}
use springo.Ioc.Ending.{enough}
use springo.Ioc.Again.{left, get-again}

program : Unit {0}
unfolding executable register_bean_definition register_bean find_bean_name_by_type get_bean_scoped
program = tt

-- A bean is told apart by the number of its type.
abbrev reflect : Reflect
reflect = record {
  assignable = λ a b. a == b;
  type_of = λ bean. bean;
  type_name = λ type. [];
  equal_fold = λ a b. false;
  fields = λ bean. [];
  definitions_order = in_order;
  beans_order = in_order;
}

abbrev empty : Container
empty = record {
  beans = [];
  definitions = [];
  type_matches = [];
  db = none;
  request = none;
  next = 0;
  built = [];
  injected = [];
}

-- A function of a parameter of each of the types, that makes a bean.
abbrev makes : ℕ → List ℕ → Factory
makes bean types =
    function (record {
      params = params types;
      outs = 1;
      out_type = bean;
      call = λ args calls. (bean, none);
    })
  where
    params : List ℕ → List Param
    params [] = []
    params (t ∷ ts) = record { type = t; is_db = false; is_context = false } ∷ params ts

abbrev repo : Text
repo = codes "repo"

abbrev service : Text
service = codes "service"

abbrev left_one : Text
left_one = codes "left"

abbrev right_one : Text
right_one = codes "right"

abbrev started : Container
started = register_bean_definition left_one (makes 3 (4 ∷ [])) singleton (
    register_bean_definition right_one (makes 4 (3 ∷ [])) singleton (
      register_bean_definition repo (makes 1 []) singleton
        (register_bean_definition service (makes 2 (1 ∷ [])) singleton empty)))

abbrev after : Option (Outcome ℕ) → Container
after none = empty
after (some o) = left o

-- The service's factory is called after the repository's.
service_built :
    get_bean_scoped reflect (enough started) [] service started
    ≡ some (ok 2 (after (get_bean_scoped reflect (enough started) [] service started)))
unfolding program
service_built = refl

order_of_calls :
    (after (get_bean_scoped reflect (enough started) [] service started)).built
    ≡ service ∷ repo ∷ []
unfolding program
order_of_calls = refl

abbrev error_of : Option (Outcome ℕ) → Option Error
error_of none = none
error_of (some (ok b c)) = none
error_of (some (fails e c)) = some e

cycle_found :
    error_of (get_bean_scoped reflect (enough started) [] left_one started)
    ≡ some (dependency left_one (dependency right_one (circular left_one)))
unfolding program
cycle_found = refl

abbrev service_definition : BeanDefinition
service_definition = record {
  name = service;
  scope = singleton;
  factory = makes 2 (1 ∷ []);
  once = false;
  instance_ = none;
  err = none;
}

abbrev served : Container
served = after (get_bean_scoped reflect (enough started) [] service started)

abbrev then_cycle : Option (Outcome ℕ)
then_cycle = get_bean_scoped reflect (enough served) [] left_one served

get-again_example :
    get_bean_scoped reflect (enough (after then_cycle)) [] service (after then_cycle)
    ≡ some (ok 2 (after then_cycle))
unfolding program
get-again_example =
    get-again reflect service left_one service_definition started served 2
      (fails (dependency left_one (dependency right_one (circular left_one))) (after then_cycle))
      refl refl refl refl refl
