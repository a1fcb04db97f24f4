-- ===== src/Locks/Exclusion.antt =====
-- manager.go: at most one instance works under a lock that has not run out.
use springo.Base.{
  pick, pick-All, subst, ℕ, zero, suc, ◌+◌, ◌≤◌, ◌≡◌, ◌≢◌, refl, sym, ◌∙◌, inl, inr, Bool, true,
  false, ◌&&◌, List, [], ◌∷◌, Option, none, some, Text, arith, text_eqb_iff, text_key, ltb, All,
  if◌then◌else◌, Option-cases, Bool-cases,
}
use springo.Locks.{
  resume, settle, Phase, reading, creating, updating, running, Attempt, LockRow, Cluster, Event,
  ticks, begins, executes, lock_record, after_read, create_row, update_expired_lock,
  release_shed_lock, begin, execute, step, run,
}

abbrev is_running : Phase → Bool
is_running running = true
is_running _ = false

-- The attempt works under a lock that has not run out.
abbrev pub is_active : ℕ → Attempt → Bool
is_active clock h = is_running h.phase && ltb clock h.until

abbrev pub count_active : ℕ → List Attempt → ℕ
count_active clock [] = 0
count_active clock (h ∷ hs) = (if is_active clock h then 1 else 0) + count_active clock hs

-- An instance makes one attempt at a time: none begins while another of its instance is under way.
abbrev pub Alone : Text → List Attempt → Type 0
Alone i hs = All (λ h. h.instance_id ≢ i) hs

abbrev Distinct : List Attempt → Type 0
Distinct [] = Unit
Distinct (h ∷ hs) = Alone h.instance_id hs × Distinct hs

-- What an attempt knows: it began in the past, and an active one owns the row.
record Sound (clock : ℕ) (row : Option LockRow) (h : Attempt) : Type 0 where
  began : h.now ≤ clock
  owner : is_active clock h ≡ true → row ≡ some (lock_record h)

record Inv (c : Cluster) : Type 0 where
  distinct : Distinct c.attempts
  sound : All (Sound c.clock c.row) c.attempts

pick-Distinct :
    (n : ℕ) (hs others : List Attempt) (h : Attempt)
    → pick n hs ≡ some (h, others)
    → Distinct hs
    → Alone h.instance_id others × Distinct others
unfolding pick
pick-Distinct n [] others h e d = absurd (ground arith)
pick-Distinct zero (x ∷ xs) others h e d =
    let head : x ≡ h = ground arith in
    let tail : xs ≡ others = ground arith in
    (
      subst (λ o. Alone h.instance_id o) tail (subst (λ g. Alone g.instance_id xs) head d.0),
      subst Distinct tail d.1,
    )
pick-Distinct (suc n) (x ∷ xs) others h e d = elim (Option-cases (pick n xs)) [
  | inl missed ↦ absurd (ground arith)
  | inr ((y, ys), hit) ↦
      let head : y ≡ h = ground arith in
      let tail : x ∷ ys ≡ others = ground arith in
      let found = pick-Distinct n xs ys y hit d.1 in
      let apart = pick-All (λ g. g.instance_id ≢ x.instance_id) n xs ys y hit d.0 in
      (
        subst (λ o. Alone h.instance_id o) tail
            (subst (λ g. Alone g.instance_id (x ∷ ys)) head ((λ s. apart.0 (sym s)), found.0)),
        subst Distinct tail (apart.1, found.1),
      )
]

-- The others stay sound while the clock goes on, and when `h` writes the row in a way that none of
-- them could have relied on.
Sound-later :
    (clock d : ℕ) (row : Option LockRow) (hs : List Attempt)
    → All (Sound clock row) hs
    → All (Sound (clock + d) row) hs
Sound-later clock d row [] a = tt
Sound-later clock d row (h ∷ hs) a = (ground arith, Sound-later clock d row hs a.1)

abbrev Keeps : ℕ → Option LockRow → Option LockRow → Attempt → Type 0
Keeps clock row row' h = Sound clock row h → Sound clock row' h

All-Keeps :
    (clock : ℕ) (row row' : Option LockRow) (i : Text) (hs : List Attempt)
    → ((h : Attempt) → h.instance_id ≢ i → Keeps clock row row' h)
    → Alone i hs
    → All (Sound clock row) hs
    → All (Sound clock row') hs
All-Keeps clock row row' i [] k o a = tt
All-Keeps clock row row' i (h ∷ hs) k o a = (k h o.0 a.0, All-Keeps clock row row' i hs k o.1 a.1)

create_row-Keeps :
    (g h : Attempt) (clock : ℕ) (row : Option LockRow) → Keeps clock row (create_row g row).0 h
unfolding create_row lock_record
create_row-Keeps g h clock none s = ground arith
create_row-Keeps g h clock (some existing) s = s

update_expired_lock-Keeps :
    (g h : Attempt) (clock : ℕ) (row : Option LockRow)
    → g.now ≤ clock
    → Keeps clock row (update_expired_lock g row).0 h
unfolding update_expired_lock lock_record
update_expired_lock-Keeps g h clock none b s = s
update_expired_lock-Keeps g h clock (some existing) b s = ground arith

release_shed_lock-Keeps :
    (g h : Attempt) (clock : ℕ) (row : Option LockRow)
    → h.instance_id ≢ g.instance_id
    → Keeps clock row (release_shed_lock clock g row) h
unfolding release_shed_lock lock_record
release_shed_lock-Keeps g h clock none ne s = s
release_shed_lock-Keeps g h clock (some existing) ne s =
    ground (arith, text_eqb_iff existing.locked_by g.instance_id)

-- A statement of `h` that leaves it in `phase` with a row that the others can live with.
settle-Inv :
    (h : Attempt) (phase : Phase) (others : List Attempt) (c : Cluster) (row : Option LockRow)
    → h.now ≤ c.clock
    → Alone h.instance_id others
    → Distinct others
    → All (Sound c.clock row) others
    → (is_running phase ≡ true → row ≡ some (lock_record h))
    → Inv (record c { row = row; attempts = record h { phase = phase } ∷ others })
unfolding lock_record
settle-Inv h phase others c row b o d a own = record {
  distinct = (o, d);
  sound = (record { began = b; owner = λ e. own (ground arith) }, a);
}

after_read-waits :
    (h : Attempt) (row : Option LockRow) (phase : Phase)
    → after_read h row ≡ some phase
    → is_running phase ≡ true
    → ⊥
unfolding after_read
after_read-waits h none phase e r = ground arith
after_read-waits h (some existing) phase e r = ground arith

create_row-owns :
    (h : Attempt) (row : Option LockRow)
    → (create_row h row).1 ≡ true
    → (create_row h row).0 ≡ some (lock_record h)
unfolding create_row
create_row-owns h none e = refl
create_row-owns h (some existing) e = absurd (ground arith)

update_expired_lock-owns :
    (h : Attempt) (row : Option LockRow)
    → (update_expired_lock h row).1 ≡ true
    → (update_expired_lock h row).0 ≡ some (lock_record h)
unfolding update_expired_lock
update_expired_lock-owns h none e = absurd (ground arith)
update_expired_lock-owns h (some existing) e = ground arith

settled-Inv :
    (h : Attempt) (result : Option LockRow × Bool) (others : List Attempt) (c : Cluster)
    → h.now ≤ c.clock
    → Alone h.instance_id others
    → Distinct others
    → All (Sound c.clock result.0) others
    → (result.1 ≡ true → result.0 ≡ some (lock_record h))
    → Inv (settle h result others c)
settled-Inv h (row, true) others c b o d a own =
    settle-Inv h running others c row b o d a (λ _. own refl)
settled-Inv h (row, false) others c b o d a own = record { distinct = d; sound = a }

execute-Inv :
    (done : Bool) (phase : Phase) (h : Attempt) (others : List Attempt) (c : Cluster)
    → h.now ≤ c.clock
    → Alone h.instance_id others
    → Distinct others
    → All (Sound c.clock c.row) others
    → Inv (execute done h phase others c)
unfolding execute
execute-Inv false phase h others c b o d a = record { distinct = d; sound = a }
execute-Inv true reading h others c b o d a = elim (Option-cases (after_read h c.row)) [
  | inl none_left ↦
      subst (λ p. Inv (record c { attempts = resume h p others })) (sym none_left)
        (record { distinct = d; sound = a })
  | inr (phase, goes_on) ↦
      subst (λ p. Inv (record c { attempts = resume h p others })) (sym goes_on)
        (settle-Inv h phase others c c.row b o d a
          (λ e. absurd (after_read-waits h c.row phase goes_on e)))
]
execute-Inv true creating h others c b o d a =
    settled-Inv h (create_row h c.row) others c b o d
      (All-Keeps c.clock c.row _ h.instance_id others (λ g ne. create_row-Keeps h g c.clock c.row) o
        a)
      (create_row-owns h c.row)
execute-Inv true updating h others c b o d a =
    settled-Inv h (update_expired_lock h c.row) others c b o d
      (All-Keeps c.clock c.row _ h.instance_id others
        (λ g ne. update_expired_lock-Keeps h g c.clock c.row b) o a)
      (update_expired_lock-owns h c.row)
execute-Inv true running h others c b o d a = record {
  distinct = d;
  sound =
      All-Keeps c.clock c.row _ h.instance_id others
        (λ g ne. release_shed_lock-Keeps h g c.clock c.row ne) o a;
}

abbrev step_picked : Bool → Option (Attempt × List Attempt) → Cluster → Cluster
step_picked done p c = elim p [ none ↦ c | some (h, others) ↦ execute done h h.phase others c ]

abbrev AloneAt : Event → Cluster → Type 0
AloneAt (begins i durations) c = Alone i c.attempts
AloneAt (ticks d) c = Unit
AloneAt (executes done n) c = Unit

-- No instance begins an attempt while another of its own is under way.
abbrev pub AloneAlong : List Event → Cluster → Type 0
AloneAlong [] c = Unit
AloneAlong (e ∷ es) c = AloneAt e c × AloneAlong es (step e c)

-- No row yet, and no attempt under way.
abbrev pub empty : ℕ → Cluster
empty clock = record { clock = clock; row = none; attempts = [] }

same_owner :
    (clock : ℕ) (row : Option LockRow) (h g : Attempt)
    → is_active clock h ≡ true
    → is_active clock g ≡ true
    → Sound clock row h
    → Sound clock row g
    → g.instance_id ≡ h.instance_id
unfolding lock_record
same_owner clock row h g e e' s s' = let same = sym (s'.owner e') ∙ s.owner e in ground arith

step-Inv : (e : Event) (c : Cluster) → AloneAt e c → Inv c → Inv (step e c)
unfolding step
step-Inv (ticks d) c l i = record {
  distinct = i.distinct;
  sound = Sound-later c.clock d c.row c.attempts i.sound;
}
step-Inv (begins i (at_most, at_least)) c l v =
    unfold begin in
    record {
      distinct = (l, v.distinct);
      sound = (record { began = ground arith; owner = λ e. absurd (ground arith) }, v.sound);
    }
step-Inv (executes done n) c l v = elim (Option-cases (pick n c.attempts)) [
  | inl missed ↦ subst (λ p. Inv (step_picked done p c)) (sym missed) v
  | inr ((h, others), hit) ↦
      let sound = pick-All (Sound c.clock c.row) n c.attempts others h hit v.sound in
      let apart = pick-Distinct n c.attempts others h hit v.distinct in
      subst (λ p. Inv (step_picked done p c)) (sym hit)
        (execute-Inv done h.phase h others c sound.0.began apart.0 apart.1 sound.1)
]

run-Inv : (es : List Event) (c : Cluster) → AloneAlong es c → Inv c → Inv (run es c)
unfolding run
run-Inv [] c l i = i
run-Inv (e ∷ es) c l i = run-Inv es (step e c) l.1 (step-Inv e c l.0 i)

-- Two active attempts would be named by one row, and be of one instance.
active_one :
    (clock : ℕ) (row : Option LockRow) (h : Attempt) (hs : List Attempt)
    → is_active clock h ≡ true
    → Sound clock row h
    → Alone h.instance_id hs
    → All (Sound clock row) hs
    → count_active clock hs ≡ 0
active_one clock row h [] e s o a = refl
active_one clock row h (g ∷ gs) e s o a = elim (Bool-cases (is_active clock g)) [
  | inl active ↦ absurd (o.0 (same_owner clock row h g e active s a.0))
  | inr idle ↦ let rest = active_one clock row h gs e s o.1 a.1 in ground arith
]

Inv-exclusive :
    (clock : ℕ) (row : Option LockRow) (hs : List Attempt)
    → Distinct hs
    → All (Sound clock row) hs
    → count_active clock hs ≤ 1
Inv-exclusive clock row [] d a = ground arith
Inv-exclusive clock row (h ∷ hs) d a = elim (Bool-cases (is_active clock h)) [
  | inl active ↦ let rest = active_one clock row h hs active a.0 d.0 a.1 in ground arith
  | inr idle ↦ let rest = Inv-exclusive clock row hs d.1 a.1 in ground arith
]

-- Take any instances that race for a lock from the empty table, with statements interleaved and
-- failing in any way, where no instance begins an attempt while another of its own is under way.
-- Then at most one attempt works under a lock that has not run out.
pub run-exclusive :
    (es : List Event) (clock : ℕ)
    → AloneAlong es (empty clock)
    → count_active (run es (empty clock)).clock (run es (empty clock)).attempts ≤ 1
run-exclusive es clock l =
    let i = run-Inv es (empty clock) l (record { distinct = tt; sound = tt }) in
    let c = run es (empty clock) in Inv-exclusive c.clock c.row c.attempts i.distinct i.sound
