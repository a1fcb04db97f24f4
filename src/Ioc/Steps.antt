-- ===== src/Ioc/Steps.antt =====
-- container.go: what every step of a resolution keeps, is kept up to the call of a factory. The steps change the
-- cache of the matches, the calls of the factories, the fields and the registry of the request; what
-- a singleton leaves is for the invariant to show.
use springo.Base.{
  ℕ, ◌+◌, Bool, true, false, List, [], ◌∷◌, Option, none, some, Text, ◌==◌, nat_key, ltb, lookup,
  insert, if◌then◌else◌, Bool-cases, inl, inr, text_key,
}
use springo.Ioc.Defs.{
  Param, Arg, Signature, Factory, nil_factory, not_function, function, Error, BeanDefinition, Field,
  Reflect, Container, Found, found, missed, find_matching_bean_names, find_bean_name_by_type,
  match_beans, match_definitions, unresolvable, dependency, context_arg, db_arg, bean_arg,
  not_assignable, bad_returns, factory_failed, no_factory, is_no_function,
}
use springo.Ioc.Resolve.{
  Outcome, ok, fails, Getter, then_do, unchanged, resolve_param, build_factory_args,
  inject_dependency_field, autowire, call_factory, instantiate, finish_singleton,
}

-- The steps keep `I`.
pub record Keeps (I : Container → Type 0) : Type 0 where
  pub matches : (c : Container) (m : List (ℕ × List Text)) → I c → I (record c { type_matches = m })
  pub injects : (c : Container) (l : List (ℕ × Text × ℕ)) → I c → I (record c { injected = l })
  pub calls :
      (c : Container) (name : Text)
      → I c
      → I (record c { next = c.next + 1; built = name ∷ c.built })
  pub requests :
      (c : Container) (registry : List (Text × ℕ)) → I c → I (record c { request = some registry })

-- The outcome is there, and its container has `I`.
abbrev pub Ends : {A : Type 0} → (Container → Type 0) → Option (Outcome A) → Type 0
Ends I none = ⊥
Ends I (some (ok a c)) = I c
Ends I (some (fails e c)) = I c

abbrev pub Total : (Container → Type 0) → Getter → Type 0
Total I get = (name : Text) (c : Container) → I c → Ends I (get name c)

-- What the resolution of the singleton `name` leaves has `I`.
abbrev pub Finishes : Reflect → Getter → (Container → Type 0) → Text → BeanDefinition → Type 0
Finishes r get I name def =
    (o : Outcome ℕ) → Ends I (some o) → Ends I (some (finish_singleton r get name def o))

pub then_do-Ends :
    {A B : Type 0} (I : Container → Type 0) (wrap : Error → Error) (m : Option (Outcome A))
    (k : A → Container → Option (Outcome B))
    → Ends I m
    → ((a : A) (c : Container) → I c → Ends I (k a c))
    → Ends I (then_do wrap m k)
then_do-Ends I wrap none k e f = e
then_do-Ends I wrap (some (ok a c)) k e f = f a c e
then_do-Ends I wrap (some (fails err c)) k e f = e

find_bean_name_by_type_keeps :
    (r : Reflect) (I : Container → Type 0)
    → Keeps I
    → (type : ℕ) (c : Container) → I c
    → I (find_bean_name_by_type r type c).1
unfolding find_bean_name_by_type find_matching_bean_names
find_bean_name_by_type_keeps r I keeps type c e = at (lookup type c.type_matches)
  where
    searched : List Text
    searched =
        match_beans r type (match_definitions r type (r.definitions_order.visit c.definitions))
          (r.beans_order.visit c.beans)

    at :
        (o : Option (List Text))
        → I
            (elim o as (λ _. List Text × Container) [
              | some matches ↦ (matches, c)
              | none ↦ (searched, record c { type_matches = insert type searched c.type_matches })
            ]).1
    at none = keeps.matches c _ e
    at (some matches) = e

module _ (r : Reflect) (get : Getter) (I : Container → Type 0) (keeps : Keeps I)
    (total : Total I get) where
  resolve_param-Ends :
      (bean_name : Text) (p : Param) (c : Container)
      → I c
      → Ends I (resolve_param r get bean_name p c)
  unfolding resolve_param
  resolve_param-Ends bean_name p c e = by_db p.is_db c.db
    where
      found_by :
          (name : Found) (c' : Container)
          → I c'
          → Ends I (elim name as (λ _. Option (Outcome Arg)) [
            | missed err ↦ some (fails (unresolvable bean_name err) c')
            | found matched ↦
                then_do
                  (dependency bean_name)
                  (get matched c')
                  (λ bean c''. some (ok (bean_arg bean) c''))
          ])
      found_by (missed err) c' e' = e'
      found_by (found matched) c' e' =
          then_do-Ends I _ (get matched c') _ (total matched c' e') (λ a c'' k. k)

      by_type : Option (Outcome Arg)
      by_type =
          (let (name, c') = find_bean_name_by_type r p.type c in
            elim name [
              | missed e ↦ some (fails (unresolvable bean_name e) c')
              | found matched ↦
                  then_do (dependency bean_name) (get matched c')
                    (λ bean c''. some (ok (bean_arg bean) c''))
            ])

      by_type-Ends : Ends I by_type
      by_type-Ends =
          found_by (find_bean_name_by_type r p.type c).0 (find_bean_name_by_type r p.type c).1
            (find_bean_name_by_type_keeps r I keeps p.type c e)

      by_context : (b : Bool) → Ends I (if b then some (ok context_arg c) else by_type)
      by_context true = e
      by_context false = by_type-Ends

      by_db :
          (b : Bool) (db : Option ℕ)
          → Ends I (
              if b
              then (elim db as (λ _. Option (Outcome Arg)) [
                | some _ ↦ some (ok db_arg c)
                | none ↦ (if p.is_context then some (ok context_arg c) else by_type)
              ])
              else (if p.is_context then some (ok context_arg c) else by_type))
      by_db true (some db) = e
      by_db true none = by_context p.is_context
      by_db false db = by_context p.is_context

  build_factory_args-Ends :
      (bean_name : Text) (ps : List Param) (c : Container)
      → I c
      → Ends I (build_factory_args r get bean_name ps c)
  unfolding build_factory_args
  build_factory_args-Ends bean_name [] c e = e
  build_factory_args-Ends bean_name (p ∷ ps) c e =
      then_do-Ends I _ (resolve_param r get bean_name p c) _ (resolve_param-Ends bean_name p c e)
        (λ arg c' e'.
          then_do-Ends I _ (build_factory_args r get bean_name ps c') _
            (build_factory_args-Ends bean_name ps c' e') (λ args c'' k. k))

  inject_dependency_field-Ends :
      (bean : ℕ) (field : Field) (c : Container)
      → I c
      → Ends I (inject_dependency_field r get bean field c)
  unfolding inject_dependency_field
  inject_dependency_field-Ends bean field c e = elim (Bool-cases field.is_provider) [
    | inl provider ↦ simp provider e
    | inr plain ↦ simp plain (then_do-Ends I _ (get field.tag c) _ (total field.tag c e) set)
  ]
    where
      set :
          (b : ℕ) (c' : Container)
          → I c'
          → Ends I (
              if r.assignable (r.type_of b) field.type
              then some (ok tt (record c' { injected = (bean, field.tag, b) ∷ c'.injected }))
              else some (fails (not_assignable field.type) c'))
      set b c' e' = elim (Bool-cases (r.assignable (r.type_of b) field.type)) [
        | inl fits ↦ rw fits (keeps.injects c' _ e')
        | inr misfits ↦ rw misfits e'
      ]

  autowire-Ends :
      (bean : ℕ) (fields : List Field) (c : Container) → I c → Ends I (autowire r get bean fields c)
  unfolding autowire
  autowire-Ends bean [] c e = e
  autowire-Ends bean (field ∷ fields) c e =
      then_do-Ends I _ (inject_dependency_field r get bean field c) _
        (inject_dependency_field-Ends bean field c e) (λ _ c' e'. autowire-Ends bean fields c' e')

  call_factory-Ends :
      (name : Text) (sig : Signature) (args : List Arg) (c : Container)
      → I c
      → Ends I (call_factory r get name sig args c)
  unfolding call_factory
  call_factory-Ends name sig args c e = at (sig.outs == 0) (ltb 2 sig.outs) failed
    where
      bean : ℕ
      bean = (sig.call args c.next).0

      called : Container
      called = record c { next = c.next + 1; built = name ∷ c.built }

      failed : Option Text
      failed = if sig.outs == 2 then (sig.call args c.next).1 else none

      e' : I called
      e' = keeps.calls c name e

      at :
          (none_out many : Bool) (failure : Option Text)
          → Ends I (
              if none_out
              then some (fails (bad_returns name) called)
              else if many
              then some (fails (bad_returns name) called)
              else (elim failure as (λ _. Option (Outcome ℕ)) [
                | some err ↦ some (fails (factory_failed name err) called)
                | none ↦ autowire r get bean (r.fields bean) called
              ]))
      at true many failure = e'
      at false true failure = e'
      at false false (some err) = e'
      at false false none = autowire-Ends bean (r.fields bean) called e'

  pub instantiate-Ends :
      (def : BeanDefinition) (c : Container) → I c → Ends I (instantiate r get def c)
  unfolding instantiate
  instantiate-Ends def c e = at def.factory
    where
      at :
          (f : Factory)
          → Ends I (elim f as (λ _. Option (Outcome ℕ)) [
            | nil_factory ↦ some (fails (no_factory def.name) c)
            | not_function ↦ some (fails (is_no_function def.name) c)
            | function sig ↦
                then_do unchanged
                  (build_factory_args r get def.name sig.params c)
                  (λ args c'. call_factory r get def.name sig args c')
          ])
      at nil_factory = e
      at not_function = e
      at (function sig) =
          then_do-Ends I _ (build_factory_args r get def.name sig.params c) _
            (build_factory_args-Ends def.name sig.params c e)
            (λ args c' e'. call_factory-Ends def.name sig args c' e')
