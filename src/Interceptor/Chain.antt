-- ===== src/Interceptor/Chain.antt =====
-- interceptor.go: the calls that InterceptorMiddleware makes around a handler.
use mathlib.Core.List.{append_assoc, append-nil, reverse, reverse-cons}
use springo.Base.{
  ℕ, suc, ◌≡◌, ◌≢◌, refl, sym, ap, ◌∙◌, ◌⊎◌, inl, inr, Bool, true, false, List, [], ◌∷◌, ◌++◌,
  Option, none, some, Text, arith, if◌then◌else◌, Bool-cases,
}
use springo.Interceptor.{
  Pre, proceeds, halts, errs, Interceptor, Call, pre_handle, after_completion, serves, panic_error,
  trigger_after_completion, run_pre_handle, run_post_handle, interceptor_middleware,
}

-- The calls of PreHandle of interceptors that all let the request through, and the interceptors in
-- the order of the unwinding, in front of those there are.
abbrev pub pres : List Interceptor → List Call
pres [] = []
pres (i ∷ is) = pre_handle i.name ∷ pres is

abbrev pub unwinding : List Interceptor → List Interceptor → List Interceptor
unwinding executed [] = executed
unwinding executed (i ∷ is) = unwinding (i ∷ executed) is

abbrev pub AllProceed : List Interceptor → Type 0
AllProceed [] = Unit
AllProceed (i ∷ is) = (i.pre_handle ≡ proceeds) × AllProceed is

abbrev pub error_of : Pre → Option Text
error_of (errs e) = some e
error_of _ = none

-- What the loop of runPreHandle does: every interceptor lets the request through, or one is the
-- first that does not, and those before it are unwound.
abbrev pub PreHandled :
    List Interceptor → List Interceptor → Option (List Interceptor) × List Call → Type 0
PreHandled executed is out =
    (AllProceed is × (out ≡ (some (unwinding executed is), pres is)))
    ⊎ ((before : List Interceptor) × (stop : Interceptor) × (after : List Interceptor) × (is
          ≡ before ++ stop ∷ after)
        × AllProceed before
        × (stop.pre_handle ≢ proceeds)
        × (out ≡ (
          none,
          pres before
              ++ pre_handle stop.name
                ∷ trigger_after_completion (unwinding executed before) (error_of stop.pre_handle),
        )))

run_pre_handle-PreHandled :
    (executed is : List Interceptor) → PreHandled executed is (run_pre_handle executed is)
unfolding run_pre_handle
run_pre_handle-PreHandled executed [] = inl (tt, refl)
run_pre_handle-PreHandled executed (i ∷ is) =
    at i.pre_handle refl (run_pre_handle (i ∷ executed) is)
      (run_pre_handle-PreHandled (i ∷ executed) is)
  where
    at :
        (pre : Pre)
        → i.pre_handle ≡ pre
        → (deeper : Option (List Interceptor) × List Call) → PreHandled (i ∷ executed) is deeper
        → PreHandled executed (i ∷ is) (elim pre as (λ _. Option (List Interceptor) × List Call) [
          | proceeds ↦ (deeper.0, pre_handle i.name ∷ deeper.1)
          | halts ↦ (none, pre_handle i.name ∷ trigger_after_completion executed none)
          | errs e ↦ (none, pre_handle i.name ∷ trigger_after_completion executed (some e))
        ])
    at halts e deeper d = inr (
      [],
      i,
      is,
      refl,
      tt,
      (λ q. absurd (ground arith)),
      ap (λ q. (none, pre_handle i.name ∷ trigger_after_completion executed (error_of q))) (sym e),
    )
    at (errs t) e deeper d = inr (
      [],
      i,
      is,
      refl,
      tt,
      (λ q. absurd (ground arith)),
      ap (λ q. (none, pre_handle i.name ∷ trigger_after_completion executed (error_of q))) (sym e),
    )
    at proceeds e deeper (inl (all, same)) =
        inl ((e, all), ap (λ o. (o.0, pre_handle i.name ∷ o.1)) same)
    at proceeds e deeper (inr (before, stop, after, split, all, ne, same)) = inr (
      i ∷ before,
      stop,
      after,
      ap (λ t. i ∷ t) split,
      (e, all),
      ne,
      ap (λ o. (o.0, pre_handle i.name ∷ o.1)) same,
    )

-- The interceptors whose PreHandle lets the request through, up to the first that does not.
abbrev pub proceeding : List Interceptor → List Interceptor
proceeding [] = []
proceeding (i ∷ is) = elim i.pre_handle [ proceeds ↦ i ∷ proceeding is | _ ↦ [] ]

abbrev pub all_proceed : List Interceptor → Bool
all_proceed [] = true
all_proceed (i ∷ is) = elim i.pre_handle [ proceeds ↦ all_proceed is | _ ↦ false ]

-- The interceptors whose AfterCompletion is called, in the order of the calls.
abbrev pub completed : List Call → List ℕ
completed [] = []
completed (after_completion name _ ∷ calls) = name ∷ completed calls
completed (_ ∷ calls) = completed calls

abbrev pub count_served : List Call → ℕ
count_served [] = 0
count_served (serves ∷ calls) = suc (count_served calls)
count_served (_ ∷ calls) = count_served calls

abbrev pub names : List Interceptor → List ℕ
names [] = []
names (i ∷ is) = i.name ∷ names is

-- A run of calls as the two observations read it.
abbrev Reads : List Call → List ℕ → ℕ → Type 0
Reads calls done served = (completed calls ≡ done) × (count_served calls ≡ served)

pres-Reads :
    (is : List Interceptor) (calls : List Call) (done : List ℕ) (served : ℕ)
    → Reads calls done served
    → Reads (pres is ++ calls) done served
pres-Reads [] calls done served r = r
pres-Reads (i ∷ is) calls done served r = pres-Reads is calls done served r

trigger_after_completion-Reads :
    (is : List Interceptor) (err : Option Text)
    → Reads (trigger_after_completion is err) (names is) 0
unfolding trigger_after_completion
trigger_after_completion-Reads [] err = (refl, refl)
trigger_after_completion-Reads (i ∷ is) err =
    let rest = trigger_after_completion-Reads is err in (ap (λ t. i.name ∷ t) rest.0, rest.1)

run_post_handle-Reads :
    (is : List Interceptor) (calls : List Call) (done : List ℕ) (served : ℕ)
    → Reads calls done served
    → Reads ((run_post_handle is).1 ++ calls) done served
unfolding run_post_handle
run_post_handle-Reads [] calls done served r = r
run_post_handle-Reads (i ∷ is) calls done served r = elim (Bool-cases i.post_handle_panics) [
  | inl panics ↦ rw panics r
  | inr returns ↦ rw returns (run_post_handle-Reads is calls done served r)
]

AllProceed-proceeding :
    (is : List Interceptor) → AllProceed is → (proceeding is ≡ is) × (all_proceed is ≡ true)
AllProceed-proceeding [] a = (refl, refl)
AllProceed-proceeding (i ∷ is) a =
    let rest = AllProceed-proceeding is a.1 in simp a.0 (ap (λ t. i ∷ t) rest.0, rest.1)

stopped-proceeding :
    (before : List Interceptor) (stop : Interceptor) (after : List Interceptor)
    → AllProceed before
    → stop.pre_handle ≢ proceeds
    → (proceeding (before ++ stop ∷ after) ≡ before)
      × (all_proceed (before ++ stop ∷ after) ≡ false)
stopped-proceeding [] stop after a ne = at stop.pre_handle ne
  where
    at :
        (p : Pre)
        → p ≢ proceeds
        → ((elim p as (λ _. List Interceptor) [ proceeds ↦ stop ∷ proceeding after | _ ↦ [] ]) ≡ [])
          × ((elim p as (λ _. Bool) [ proceeds ↦ all_proceed after | _ ↦ false ]) ≡ false)
    at proceeds n = absurd (n refl)
    at halts n = (refl, refl)
    at (errs e) n = (refl, refl)
stopped-proceeding (i ∷ is) stop after a ne =
    let rest = stopped-proceeding is stop after a.1 ne in simp a.0 (ap (λ t. i ∷ t) rest.0, rest.1)

unwinding-reverse :
    (executed is : List Interceptor) → unwinding executed is ≡ reverse is ++ executed
unwinding-reverse executed [] = refl
unwinding-reverse executed (i ∷ is) =
    unwinding-reverse (i ∷ executed) is
    ∙ sym (append_assoc (reverse is) (i ∷ []) executed)
    ∙ ap (λ t. t ++ executed) (sym (reverse-cons i is))

unwinding-names : (is : List Interceptor) → names (unwinding [] is) ≡ names (reverse is)
unwinding-names is = ap names (unwinding-reverse [] is ∙ append-nil (reverse is))

-- What the middleware does with the result of runPreHandle.
abbrev finish : Bool → Option (List Interceptor) × List Call → Bool × List Call
finish handler_panics out = elim out.0 [
  | none ↦ (false, out.1)
  | some executed ↦
      let (post_panics, posts) = run_post_handle executed in
      if handler_panics
      then (true, out.1 ++ serves ∷ trigger_after_completion executed (some panic_error))
      else (
        post_panics,
        out.1
            ++ (serves
                ∷ (posts
                    ++ trigger_after_completion executed
                        (if post_panics then some panic_error else none))),
      )
]

finish-Reads :
    (is : List Interceptor) (handler_panics : Bool)
    → Reads (finish handler_panics (some (unwinding [] is), pres is)).1 (names (reverse is)) 1
finish-Reads is true = pres-Reads is _ _ _ (
    let rest = trigger_after_completion-Reads (unwinding [] is) (some panic_error) in
    (rest.0 ∙ unwinding-names is, ap suc rest.1))
finish-Reads is false =
    let (post_panics, posts) = run_post_handle (unwinding [] is) in
    let err : Option Text = if post_panics then some panic_error else none in
    let afters = trigger_after_completion-Reads (unwinding [] is) err in
    let rest = run_post_handle-Reads (unwinding [] is) _ _ _ afters in
    pres-Reads is (serves ∷ (posts ++ trigger_after_completion (unwinding [] is) err)) _ _
      (rest.0 ∙ unwinding-names is, ap suc rest.1)

chain-Reads :
    (is : List Interceptor) (out : Option (List Interceptor) × List Call) (handler_panics : Bool)
    → PreHandled [] is out
    → Reads
        (finish handler_panics out).1
        (names (reverse (proceeding is)))
        (if all_proceed is then 1 else 0)
chain-Reads is out hp (inr (before, stop, after, split, all, ne, same)) =
    let found = stopped-proceeding before stop after all ne in
    let first : proceeding is ≡ before = ap proceeding split ∙ found.0 in
    let not_all : all_proceed is ≡ false = ap all_proceed split ∙ found.1 in
    let read = trigger_after_completion-Reads (unwinding [] before) (error_of stop.pre_handle) in
    let halted = pres-Reads before (pre_handle stop.name ∷ _) _ _ read in
    rw (same, first, not_all) (halted.0 ∙ unwinding-names before, halted.1)
chain-Reads is out hp (inl (all, same)) =
    let found = AllProceed-proceeding is all in rw (same, found.0, found.1) (finish-Reads is hp)

-- However a request ends (served, halted by a PreHandle or with its error, or by a panic of the
-- handler or of a PostHandle), AfterCompletion is called once for each interceptor whose PreHandle
-- let it through before the first that did not, in the reverse of their order, and for no other; the
-- handler is called once where every PreHandle let the request through, and never otherwise.
pub interceptor_middleware-unwinds :
    (is : List Interceptor) (handler_panics : Bool)
    → (completed (interceptor_middleware is handler_panics).1 ≡ names (reverse (proceeding is)))
      × (count_served (interceptor_middleware is handler_panics).1
          ≡ (if all_proceed is then 1 else 0))
unfolding interceptor_middleware
interceptor_middleware-unwinds [] handler_panics = (refl, refl)
interceptor_middleware-unwinds (i ∷ is) handler_panics =
    chain-Reads (i ∷ is) (run_pre_handle [] (i ∷ is)) handler_panics
      (run_pre_handle-PreHandled [] (i ∷ is))
