-- ===== src/Ioc/Preserved.antt =====
-- container.go: what every step of a resolution keeps, is kept by each scope and by GetBeanScoped.
use springo.Base.{
  ℕ, suc, ◌≡◌, Bool, true, false, List, [], ◌∷◌, ◌++◌, Option, none, some, Text, nat_key, refl,
  lookup, insert, Bool-cases, inl, inr, text_key,
}
use springo.Ioc.Defs.{
  singleton, prototype, request, unsupported, Error, BeanDefinition, Reflect, Container, no_factory,
  outside_request, unsupported_scope, not_registered, circular, Scope,
}
use springo.Ioc.Resolve.{
  Outcome, ok, fails, Getter, then_do, unchanged, is_circular, instantiate, finish_singleton, kept,
  resolve_singleton_bean, store_in_request, resolve_request_bean, resolve_by_scope, get_bean_scoped,
}
use springo.Ioc.Steps.{Keeps, Ends, Total, Finishes, then_do-Ends, instantiate-Ends}

module _ (r : Reflect) (get : Getter) (I : Container → Type 0) (keeps : Keeps I)
    (total : Total I get) where
  kept-Ends : (def : BeanDefinition) (c : Container) → I c → Ends I (some (kept r get def c))
  unfolding kept
  kept-Ends def c e = at def.err def.instance_
    where
      at :
          (err : Option Error) (bean : Option ℕ)
          → Ends I (
              some (elim err as (λ _. Outcome ℕ) [
                | some e ↦ fails e c
                | none ↦ elim bean [ some b ↦ ok b c | none ↦ fails (no_factory def.name) c ]
              ]))
      at (some x) bean = e
      at none (some b) = e
      at none none = e

  resolve_singleton_bean-Ends :
      (name : Text) (def : BeanDefinition) (c : Container)
      → Finishes r get I name def
      → I c
      → Ends I (resolve_singleton_bean r get name def c)
  unfolding resolve_singleton_bean
  resolve_singleton_bean-Ends name def c m e = elim (Bool-cases def.once) [
    | inl done ↦ simp done (kept-Ends def c e)
    | inr first ↦
        simp first (at (instantiate r get def c) (instantiate-Ends r get I keeps total def c e))
  ]
    where
      at :
          (o : Option (Outcome ℕ))
          → Ends I o
          → Ends I (elim o as (λ _. Option (Outcome ℕ)) [
            | none ↦ none
            | some outcome ↦ some (finish_singleton r get name def outcome)
          ])
      at none x = x
      at (some outcome) x = m outcome x

  resolve_request_bean-Ends :
      (name : Text) (def : BeanDefinition) (c : Container)
      → I c
      → Ends I (resolve_request_bean r get name def c)
  unfolding resolve_request_bean
  resolve_request_bean-Ends name def c e = at c.request
    where
      stored : (b : ℕ) (c' : Container) → I c' → Ends I (some (store_in_request r get name b c'))
      stored b c' e' = held c'.request
        where
          held :
              (o : Option (List (Text × ℕ)))
              → Ends I (
                  some (elim o as (λ _. Outcome ℕ) [
                    | none ↦ ok b c'
                    | some instances ↦ ok b (record c' { request = some (insert name b instances) })
                  ]))
          held none = e'
          held (some instances) = keeps.requests c' _ e'

      looked :
          (o : Option ℕ)
          → Ends I (elim o as (λ _. Option (Outcome ℕ)) [
            | some bean ↦ some (ok bean c)
            | none ↦
                then_do unchanged
                  (instantiate r get def c)
                  (λ bean c'. some (store_in_request r get name bean c'))
          ])
      looked (some bean) = e
      looked none =
          then_do-Ends I _ (instantiate r get def c) _
            (instantiate-Ends r get I keeps total def c e) stored

      at :
          (o : Option (List (Text × ℕ)))
          → Ends I (elim o as (λ _. Option (Outcome ℕ)) [
            | none ↦ some (fails (outside_request name) c)
            | some instances ↦ elim (lookup name instances) [
              | some bean ↦ some (ok bean c)
              | none ↦
                  then_do unchanged
                    (instantiate r get def c)
                    (λ bean c'. some (store_in_request r get name bean c'))
            ]
          ])
      at none = e
      at (some instances) = looked (lookup name instances)

  resolve_by_scope-Ends :
      (name : Text) (def : BeanDefinition) (c : Container)
      → Finishes r get I name def
      → I c
      → Ends I (resolve_by_scope r get name def c)
  unfolding resolve_by_scope
  resolve_by_scope-Ends name def c m e = at def.scope
    where
      at :
          (s : Scope)
          → Ends I (elim s as (λ _. Option (Outcome ℕ)) [
            | singleton ↦ resolve_singleton_bean r get name def c
            | prototype ↦ instantiate r get def c
            | request ↦ resolve_request_bean r get name def c
            | unsupported scope ↦ some (fails (unsupported_scope scope name) c)
          ])
      at singleton = resolve_singleton_bean-Ends name def c m e
      at prototype = instantiate-Ends r get I keeps total def c e
      at request = resolve_request_bean-Ends name def c e
      at (unsupported scope) = e

-- One call of GetBeanScoped: the name is looked up, and the resolution below it is asked for only
-- where the name is defined, not yet a bean, and not on the stack.
pub get_bean_scoped-Ends_step :
    (r : Reflect) (I : Container → Type 0)
    → Keeps I
    → (fuel : ℕ) (stack : List Text) (name : Text) (c : Container) → I c
    → (lookup name c.beans ≡ none
        → (def : BeanDefinition) → lookup name c.definitions ≡ some def
        → is_circular stack name ≡ false
        → Total I (get_bean_scoped r fuel (stack ++ name ∷ []))
          × Finishes r (get_bean_scoped r fuel (stack ++ name ∷ [])) I name def)
    → Ends I (get_bean_scoped r (suc fuel) stack name c)
unfolding get_bean_scoped
get_bean_scoped-Ends_step r I keeps fuel stack name c e deeper =
    at (lookup name c.beans) refl (lookup name c.definitions) refl (is_circular stack name) refl
  where
    inner : Getter
    inner = get_bean_scoped r fuel (stack ++ name ∷ [])

    at :
        (bean : Option ℕ)
        → lookup name c.beans ≡ bean
        → (defined : Option BeanDefinition) → lookup name c.definitions ≡ defined
        → (seen : Bool) → is_circular stack name ≡ seen
        → Ends I (elim bean as (λ _. Option (Outcome ℕ)) [
          | some b ↦ some (ok b c)
          | none ↦ elim defined [
            | none ↦ some (fails (not_registered name) c)
            | some def ↦ elim seen [
              | true ↦ some (fails (circular name) c)
              | false ↦ resolve_by_scope r inner name def c
            ]
          ]
        ])
    at (some b) p defined f seen s = e
    at none p none f seen s = e
    at none p (some def) f true s = e
    at none p (some def) f false s =
        let (total, finishes) = deeper p def f s in
        resolve_by_scope-Ends r inner I keeps total name def c finishes e
