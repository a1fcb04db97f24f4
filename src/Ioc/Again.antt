-- ===== src/Ioc/Again.antt =====
-- container.go: a singleton that was resolved stays what it is.
use springo.Base.{
  ℕ, zero, suc, ◌≡◌, refl, ◌∙◌, Bool, true, false, List, [], ◌∷◌, ◌++◌, Option, none, some, Text,
  ◌==◌, ==_refl, text_key, lookup, lookup-insert, text_eqb_iff, length, arith, subst,
}
use springo.Ioc.Defs.{
  Scope, singleton, prototype, request, unsupported, BeanDefinition, Reflect, Container,
  not_registered, circular, unsupported_scope,
}
use springo.Ioc.Steps.{Keeps, Ends, Finishes}
use springo.Ioc.Ending.{keys, Names, Names-Finishes, get_bean_scoped-Total, enough, enough_unseen}
use springo.Ioc.Resolve.{
  Outcome, ok, fails, Getter, is_circular, instantiate, finish_singleton, resolve_singleton_bean,
  resolve_request_bean, resolve_by_scope, get_bean_scoped,
}

-- A bean in the map is what is got, and nothing changes.
hit :
    (r : Reflect) (fuel : ℕ) (stack : List Text) (name : Text) (b : ℕ) (c : Container)
    → lookup name c.beans ≡ some b
    → get_bean_scoped r (suc fuel) stack name c ≡ some (ok b c)
unfolding get_bean_scoped
hit r fuel stack name b c e = rw (e, get_bean_scoped) refl

-- A bean that is got is in the map.
abbrev Stored : Text → Option (Outcome ℕ) → Type 0
Stored name none = Unit
Stored name (some (fails e c)) = Unit
Stored name (some (ok b c)) = lookup name c.beans ≡ some b

finish_singleton-Stored :
    (r : Reflect) (get : Getter) (name : Text) (def : BeanDefinition) (o : Outcome ℕ)
    → Stored name (some (finish_singleton r get name def o))
unfolding finish_singleton
finish_singleton-Stored r get name def (ok bean c) =
    lookup-insert name name bean c.beans ∙ rw (==_refl name) refl
finish_singleton-Stored r get name def (fails e c) = tt

resolve_singleton_bean-Stored :
    (r : Reflect) (get : Getter) (name : Text) (def : BeanDefinition) (c : Container)
    → def.once ≡ false
    → Stored name (resolve_singleton_bean r get name def c)
unfolding resolve_singleton_bean
resolve_singleton_bean-Stored r get name def c first = simp first (at (instantiate r get def c))
  where
    at :
        (o : Option (Outcome ℕ))
        → Stored name (elim o as (λ _. Option (Outcome ℕ)) [
          | none ↦ none
          | some outcome ↦ some (finish_singleton r get name def outcome)
        ])
    at none = tt
    at (some outcome) = finish_singleton-Stored r get name def outcome

resolve_by_scope-Stored :
    (r : Reflect) (get : Getter) (name : Text) (def : BeanDefinition) (c : Container)
    → def.scope ≡ singleton
    → def.once ≡ false
    → Stored name (resolve_by_scope r get name def c)
unfolding resolve_by_scope
resolve_by_scope-Stored r get name def c = at def.scope
  where
    at :
        (scope : Scope)
        → scope ≡ singleton
        → def.once ≡ false
        → Stored name (elim scope as (λ _. Option (Outcome ℕ)) [
          | singleton ↦ resolve_singleton_bean r get name def c
          | prototype ↦ instantiate r get def c
          | request ↦ resolve_request_bean r get name def c
          | unsupported scope ↦ some (fails (unsupported_scope scope name) c)
        ])
    at singleton e first = resolve_singleton_bean-Stored r get name def c first
    at prototype e first = absurd (ground arith)
    at request e first = absurd (ground arith)
    at (unsupported scope) e first = absurd (ground arith)

get_bean_scoped-Stored :
    (r : Reflect) (fuel : ℕ) (stack : List Text) (name : Text) (def : BeanDefinition)
    (c : Container)
    → lookup name c.definitions ≡ some def
    → def.scope ≡ singleton
    → def.once ≡ false
    → Stored name (get_bean_scoped r fuel stack name c)
unfolding get_bean_scoped
get_bean_scoped-Stored r zero stack name def c d s first = tt
get_bean_scoped-Stored r (suc fuel) stack name def c d s first =
    at (lookup name c.beans) refl (lookup name c.definitions) d (is_circular stack name)
  where
    inner : Getter
    inner = get_bean_scoped r fuel (stack ++ name ∷ [])

    at :
        (bean : Option ℕ)
        → lookup name c.beans ≡ bean
        → (defined : Option BeanDefinition) → defined ≡ some def
        → (seen : Bool)
        → Stored name (elim bean as (λ _. Option (Outcome ℕ)) [
          | some b ↦ some (ok b c)
          | none ↦ elim defined [
            | none ↦ some (fails (not_registered name) c)
            | some def ↦ elim seen [
              | true ↦ some (fails (circular name) c)
              | false ↦ resolve_by_scope r inner name def c
            ]
          ]
        ])
    at (some b) l defined e seen = l
    at none l none e seen = tt
    at none l (some d) e true = tt
    at none l (some d) e false =
        let same : def ≡ d = ground arith in
        subst (λ d. Stored name (resolve_by_scope r inner name d c)) same
          (resolve_by_scope-Stored r inner name def c s first)

-- The bean of `name` is `b`, among the definitions `ks`.
abbrev Holds : List Text → Text → ℕ → Container → Type 0
Holds ks name b c = Names ks c × (lookup name c.beans ≡ some b)

Holds-Keeps : (ks : List Text) (name : Text) (b : ℕ) → Keeps (Holds ks name b)
Holds-Keeps ks name b = record {
  matches = λ c m e. e;
  injects = λ c l e. e;
  calls = λ c n e. e;
  requests = λ c registry e. e;
}

Holds-Finishes :
    (r : Reflect) (get : Getter) (ks : List Text) (name other : Text) (b : ℕ) (def : BeanDefinition)
    → is_circular ks other ≡ true
    → other == name ≡ false
    → Finishes r get (Holds ks name b) other def
unfolding finish_singleton
Holds-Finishes r get ks name other b def there differs (ok bean c) (n, h) = (
  Names-Finishes r get ks other def there (ok bean c) n,
  lookup-insert other name bean c.beans ∙ rw differs h,
)
Holds-Finishes r get ks name other b def there differs (fails e c) (n, h) =
    (Names-Finishes r get ks other def there (fails e c) n, h)

-- A name that is not a bean is not the one that is.
missing_differs :
    (name other : Text) (b : ℕ) (beans : List (Text × ℕ))
    → lookup name beans ≡ some b
    → lookup other beans ≡ none
    → other == name ≡ false
missing_differs name other b beans h m = ground (arith, text_eqb_iff other name)

-- The container that an outcome leaves.
abbrev pub left : Outcome ℕ → Container
left (ok b c) = c
left (fails e c) = c

Ends-left :
    (I : Container → Type 0) (m : Option (Outcome ℕ)) (o : Outcome ℕ)
    → m ≡ some o
    → Ends I m
    → I (left o)
Ends-left I none o e h = absurd h
Ends-left I (some (ok b c)) o e h = subst (λ o. I (left o)) {x = ok b c} {y = o} (ground arith) h
Ends-left I (some (fails x c)) o e h =
    subst (λ o. I (left o)) {x = fails x c} {y = o} (ground arith) h

get_bean_scoped-Holds :
    (r : Reflect) (name other : Text) (b : ℕ) (c : Container)
    → lookup name c.beans ≡ some b
    → Ends (Holds (keys c.definitions) name b) (get_bean_scoped r (enough c) [] other c)
get_bean_scoped-Holds r name other b c h =
    let ks = keys c.definitions in
    get_bean_scoped-Total r ks (Holds ks name b) (Holds-Keeps ks name b) (λ c e. e.0)
      (λ get n def c' e missing there.
        Holds-Finishes r get ks name n b def there (missing_differs name n b c'.beans e.1 missing))
      (enough c) [] (enough_unseen c) other c (refl, h)

-- A singleton whose factory has not been called yet is got as `b`. Whatever is got from the
-- container next, and however that ends, the singleton is still `b`, and getting it again changes
-- nothing.
pub get-again :
    (r : Reflect) (name other : Text) (def : BeanDefinition) (c c1 : Container) (b : ℕ)
    (o : Outcome ℕ)
    → lookup name c.definitions ≡ some def
    → def.scope ≡ singleton
    → def.once ≡ false
    → get_bean_scoped r (enough c) [] name c ≡ some (ok b c1)
    → get_bean_scoped r (enough c1) [] other c1 ≡ some o
    → get_bean_scoped r (enough (left o)) [] name (left o) ≡ some (ok b (left o))
get-again r name other def c c1 b o d s first g1 g2 =
    let stored : lookup name c1.beans ≡ some b =
      subst (Stored name) g1 (get_bean_scoped-Stored r (enough c) [] name def c d s first) in
    let kept =
      Ends-left (Holds (keys c1.definitions) name b) _ o g2
        (get_bean_scoped-Holds r name other b c1 stored) in
    hit r (length (keys (left o).definitions)) [] name b (left o) kept.1
