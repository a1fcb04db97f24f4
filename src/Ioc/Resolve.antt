-- ===== src/Ioc/Resolve.antt =====
-- container.go: GetBeanScoped. A bean's factory asks the container for its parameters and the bean
-- for its tagged fields, with the bean's name pushed on the stack of the resolution. `get` is that
-- way back into the container; `none` is a resolution that ran out of fuel. A factory itself does not
-- call the container.
use springo.Base.{
  ℕ, zero, suc, ◌+◌, Bool, true, false, List, [], ◌∷◌, ◌++◌, Option, none, some, Text, ◌==◌,
  text_key, nat_key, lookup, insert, any, if◌then◌else◌, ltb,
}
use springo.Ioc.Defs.{
  singleton, prototype, request, unsupported, Param, Arg, db_arg, context_arg, bean_arg, Signature,
  nil_factory, not_function, function, Error, not_registered, circular, outside_request, no_factory,
  is_no_function, bad_returns, unsupported_scope, factory_failed, not_assignable, unresolvable,
  dependency, injection, BeanDefinition, Field, Reflect, Container, found, missed,
  find_bean_name_by_type,
}

-- What a step of a resolution leaves: a value or an error, and the container.
pub data Outcome (A : Type 0) : Type 0 where
  ok : A → Container → Outcome A
  fails : Error → Container → Outcome A

abbrev pub Getter : Type 0
Getter = Text → Container → Option (Outcome ℕ)

-- A value goes on to the next step; an error is wrapped, and ends the resolution.
abbrev pub then_do :
    {A B : Type 0}
    → (Error → Error)
    → Option (Outcome A)
    → (A → Container → Option (Outcome B))
    → Option (Outcome B)
then_do wrap none k = none
then_do wrap (some (fails e c)) k = some (fails (wrap e) c)
then_do wrap (some (ok a c)) k = k a c

abbrev pub unchanged : Error → Error
unchanged e = e

-- checkCircularDependency.
unfoldable pub is_circular : List Text → Text → Bool
is_circular stack name = any (λ s. s == name) stack

module _ (r : Reflect) (get : Getter) where
  unfoldable pub resolve_param : Text → Param → Container → Option (Outcome Arg)
  resolve_param bean_name p c =
      let by_type : Option (Outcome Arg) =
        (let (name, c') = find_bean_name_by_type r p.type c in
          elim name [
            | missed e ↦ some (fails (unresolvable bean_name e) c')
            | found matched ↦
                then_do (dependency bean_name) (get matched c')
                  (λ bean c''. some (ok (bean_arg bean) c''))
          ]) in
      let by_context : Option (Outcome Arg) =
        (if p.is_context then some (ok context_arg c) else by_type) in
      if p.is_db
      then (elim c.db [ some _ ↦ some (ok db_arg c) | none ↦ by_context ])
      else by_context

  unfoldable pub build_factory_args : Text → List Param → Container → Option (Outcome (List Arg))
  unfolding resolve_param
  build_factory_args bean_name [] c = some (ok [] c)
  build_factory_args bean_name (p ∷ ps) c =
      then_do unchanged (resolve_param bean_name p c) (λ arg c'.
        then_do unchanged (build_factory_args bean_name ps c')
          (λ args c''. some (ok (arg ∷ args) c'')))

  -- A Provider is set without a resolution.
  unfoldable pub inject_dependency_field : ℕ → Field → Container → Option (Outcome (Unit {0}))
  inject_dependency_field bean field c =
      if field.is_provider
      then some (ok tt c)
      else then_do (injection field.tag) (get field.tag c) (λ dependency_bean c'.
        if r.assignable (r.type_of dependency_bean) field.type
        then some
            (ok tt (record c' { injected = (bean, field.tag, dependency_bean) ∷ c'.injected }))
        else some (fails (not_assignable field.type) c'))

  unfoldable pub autowire : ℕ → List Field → Container → Option (Outcome ℕ)
  unfolding inject_dependency_field
  autowire bean [] c = some (ok bean c)
  autowire bean (field ∷ fields) c =
      then_do unchanged (inject_dependency_field bean field c) (λ _ c'. autowire bean fields c')

  -- The call of the factory, and what follows it.
  unfoldable pub call_factory : Text → Signature → List Arg → Container → Option (Outcome ℕ)
  unfolding autowire
  call_factory name sig args c =
      let (bean, failure) = sig.call args c.next in
      let c' : Container = record c { next = c.next + 1; built = name ∷ c.built } in
      if sig.outs == 0
      then some (fails (bad_returns name) c')
      else if ltb 2 sig.outs
      then some (fails (bad_returns name) c')
      else (let failed : Option Text = (if sig.outs == 2 then failure else none) in
          elim failed [
            | some e ↦ some (fails (factory_failed name e) c')
            | none ↦ autowire bean (r.fields bean) c'
          ])

  unfoldable pub instantiate : BeanDefinition → Container → Option (Outcome ℕ)
  unfolding build_factory_args call_factory
  instantiate def c = elim def.factory [
    | nil_factory ↦ some (fails (no_factory def.name) c)
    | not_function ↦ some (fails (is_no_function def.name) c)
    | function sig ↦
        then_do unchanged (build_factory_args def.name sig.params c)
          (λ args c'. call_factory def.name sig args c')
  ]

  -- What `once` leaves in the definition and in the map of beans.
  unfoldable pub finish_singleton : Text → BeanDefinition → Outcome ℕ → Outcome ℕ
  finish_singleton name def (ok bean c) = ok bean (record c {
    definitions =
        insert name (record def { once = true; instance_ = some bean; err = none }) c.definitions;
    beans = insert name bean c.beans;
  })
  finish_singleton name def (fails e c) = fails e (record c {
    definitions =
        insert name (record def { once = true; instance_ = none; err = some e }) c.definitions;
  })

  -- The result that a definition keeps; a definition that is done has a bean or an error.
  unfoldable pub kept : BeanDefinition → Container → Outcome ℕ
  kept def c = elim def.err [
    | some e ↦ fails e c
    | none ↦ elim def.instance_ [ some bean ↦ ok bean c | none ↦ fails (no_factory def.name) c ]
  ]

  unfoldable pub resolve_singleton_bean : Text → BeanDefinition → Container → Option (Outcome ℕ)
  unfolding instantiate finish_singleton kept
  resolve_singleton_bean name def c =
      if def.once then some (kept def c) else (elim (instantiate def c) [
        | none ↦ none
        | some outcome ↦ some (finish_singleton name def outcome)
      ])

  -- The bean is kept in the request's registry.
  abbrev pub store_in_request : Text → ℕ → Container → Outcome ℕ
  store_in_request name bean c = elim c.request [
    | none ↦ ok bean c
    | some instances ↦ ok bean (record c { request = some (insert name bean instances) })
  ]

  unfoldable pub resolve_request_bean : Text → BeanDefinition → Container → Option (Outcome ℕ)
  unfolding instantiate
  resolve_request_bean name def c = elim c.request [
    | none ↦ some (fails (outside_request name) c)
    | some instances ↦ elim (lookup name instances) [
      | some bean ↦ some (ok bean c)
      | none ↦
          then_do unchanged (instantiate def c) (λ bean c'. some (store_in_request name bean c'))
    ]
  ]

  unfoldable pub resolve_by_scope : Text → BeanDefinition → Container → Option (Outcome ℕ)
  unfolding resolve_singleton_bean resolve_request_bean
  resolve_by_scope name def c = elim def.scope [
    | singleton ↦ resolve_singleton_bean name def c
    | prototype ↦ instantiate def c
    | request ↦ resolve_request_bean name def c
    | unsupported scope ↦ some (fails (unsupported_scope scope name) c)
  ]

-- GetBeanScoped on the stack of the names that are being resolved.
unfoldable pub get_bean_scoped : Reflect → ℕ → List Text → Text → Container → Option (Outcome ℕ)
unfolding is_circular resolve_by_scope
get_bean_scoped r zero stack name c = none
get_bean_scoped r (suc fuel) stack name c = elim (lookup name c.beans) [
  | some bean ↦ some (ok bean c)
  | none ↦ elim (lookup name c.definitions) [
    | none ↦ some (fails (not_registered name) c)
    | some def ↦ elim (is_circular stack name) [
      | true ↦ some (fails (circular name) c)
      | false ↦ resolve_by_scope r (get_bean_scoped r fuel (stack ++ name ∷ [])) name def c
    ]
  ]
]
