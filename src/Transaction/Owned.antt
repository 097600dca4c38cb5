-- ===== src/Transaction/Owned.antt =====
-- The owners and the releases of an interface, through the operations on one object.
use fbpp.Prelude.{
  ℕ, zero, suc, ◌+◌, ◌≡◌, refl, Bool, true, false, List, [], ◌∷◌, ◌++◌, Option, none, some, ◌==◌,
  if◌then◌else◌, get_elem?, set, arith,
}
use fbpp.Transaction.{
  Transaction, Operation, commit, rollback, commit_retaining, rollback_retaining, Event, called,
  released, perform, perform_active, call_engine, drop_interface, drop_failed, is_active, done,
}
use fbpp.Transaction.World.{remove_at}

-- How often an interface is held, and how often it was released.
abbrev pub holds : ℕ → Option ℕ → ℕ
holds h none = 0
holds h (some k) = if k == h then 1 else 0

abbrev pub owners : ℕ → List Transaction → ℕ
owners h [] = 0
owners h (t ∷ ts) = holds h t.handle + owners h ts

abbrev pub releases : ℕ → List Event → ℕ
releases h [] = 0
releases h (called op k b ∷ es) = releases h es
releases h (released k ∷ es) = (if k == h then 1 else 0) + releases h es

-- An object is active exactly if it has an interface.
abbrev pub IsWhole : Transaction → Type 0
IsWhole t = t.active ≡ (elim t.handle [ none ↦ false | some h ↦ true ])

pub owners-set :
    (h i : ℕ) (ts : List Transaction) (t u : Transaction)
    → get_elem? ts i ≡ some t
    → owners h (set ts i u) + holds h t.handle ≡ owners h ts + holds h u.handle
owners-set h i [] t u e = absurd (cc)
owners-set h zero (s ∷ ts) t u e = let same : s ≡ t = cc in rw same (omega arith)
owners-set h (suc i) (s ∷ ts) t u e = omega (arith, owners-set h i ts t u e)

pub owners-remove_at :
    (h i : ℕ) (ts : List Transaction) (t : Transaction)
    → get_elem? ts i ≡ some t
    → owners h (remove_at i ts) + holds h t.handle ≡ owners h ts
unfolding remove_at
owners-remove_at h i [] t e = absurd (cc)
owners-remove_at h zero (s ∷ ts) t e = let same : s ≡ t = cc in rw same (omega arith)
owners-remove_at h (suc i) (s ∷ ts) t e = omega (arith, owners-remove_at h i ts t e)

pub releases-append :
    (h : ℕ) (es fs : List Event) → releases h (es ++ fs) ≡ releases h es + releases h fs
releases-append h [] fs = omega arith
releases-append h (called op k b ∷ es) fs = releases-append h es fs
releases-append h (released k ∷ es) fs = omega (arith, releases-append h es fs)

-- Each event is about an interface that was not released before.
abbrev pub Clean : List Event → Type 0
Clean [] = Unit {0}
Clean (called op h b ∷ es) = (releases h es ≡ 0) × Clean es
Clean (released h ∷ es) = (releases h es ≡ 0) × Clean es

-- What an operation releases, its object no longer holds; and it concerns the object's interface.
module _ (op : Operation) (t : Transaction) (b : Bool) where
  pub perform-balance :
      (h : ℕ)
      → holds h (perform op t b).object.handle + releases h (perform op t b).events
        ≡ holds h t.handle
  unfolding perform
  perform-balance h = balance op t.handle t.active b refl
    where
      balance :
          (op' : Operation) (o : Option ℕ) (a b' : Bool)
          → t.handle ≡ o
          → holds h (perform_active op' t b' o a).object.handle
              + releases h (perform_active op' t b' o a).events
            ≡ holds h o
      balance op' none a b' e = unfold call_engine in rw e refl
      balance op' (some k) false b' e = unfold call_engine in rw e (omega arith)
      balance op' (some k) true false e = unfold call_engine in rw e (omega arith)
      balance commit (some k) true true e = unfold call_engine in omega arith
      balance rollback (some k) true true e = unfold call_engine in omega arith
      balance commit_retaining (some k) true true e = unfold call_engine in rw e (omega arith)
      balance rollback_retaining (some k) true true e = unfold call_engine in rw e (omega arith)

  pub perform-IsWhole : IsWhole t → IsWhole (perform op t b).object
  unfolding perform
  perform-IsWhole v = whole op t.handle t.active b
    where
      whole :
          (op' : Operation) (o : Option ℕ) (a b' : Bool)
          → IsWhole (perform_active op' t b' o a).object
      whole op' none a b' = v
      whole op' (some k) false b' = v
      whole op' (some k) true false = unfold call_engine in v
      whole commit (some k) true true = unfold call_engine in refl
      whole rollback (some k) true true = unfold call_engine in refl
      whole commit_retaining (some k) true true = unfold call_engine in v
      whole rollback_retaining (some k) true true = unfold call_engine in v

  pub perform-Clean :
      (es : List Event)
      → ((k : ℕ) → t.handle ≡ some k → releases k es ≡ 0)
      → Clean es
      → Clean ((perform op t b).events ++ es)
  unfolding perform
  perform-Clean es fresh c = clean op t.handle t.active b refl
    where
      clean :
          (op' : Operation) (o : Option ℕ) (a b' : Bool)
          → t.handle ≡ o
          → Clean ((perform_active op' t b' o a).events ++ es)
      clean op' none a b' e = c
      clean op' (some k) false b' e = c
      clean op' (some k) true false e = unfold call_engine in (fresh k e, c)
      clean commit (some k) true true e = unfold call_engine in (fresh k e, (fresh k e, c))
      clean rollback (some k) true true e = unfold call_engine in (fresh k e, (fresh k e, c))
      clean commit_retaining (some k) true true e = unfold call_engine in (fresh k e, c)
      clean rollback_retaining (some k) true true e = unfold call_engine in (fresh k e, c)

module _ (t : Transaction) (b : Bool) (v : IsWhole t) where
  pub drop_interface-balance : (h : ℕ) → releases h (drop_interface t b).events ≡ holds h t.handle
  unfolding drop_interface is_active perform call_engine
  drop_interface-balance h = balance t.handle t.active b v
    where
      balance :
          (o : Option ℕ) (a b' : Bool)
          → a ≡ (elim o [ none ↦ false | some k ↦ true ])
          → releases h
              (if (elim o [ none ↦ false | some k ↦ a ])
                then drop_failed o
                    (perform_active rollback t b' o a)
                    (perform_active rollback t b' o a).reply
                else record { object = t; events = []; reply = done }).events
            ≡ holds h o
      balance none a b' e = refl
      balance (some k) false b' e = absurd (cc)
      balance (some k) true false e = omega arith
      balance (some k) true true e = omega arith

  pub drop_interface-Clean :
      (es : List Event)
      → ((k : ℕ) → t.handle ≡ some k → releases k es ≡ 0)
      → Clean es
      → Clean ((drop_interface t b).events ++ es)
  unfolding drop_interface is_active perform call_engine
  drop_interface-Clean es fresh c = clean t.handle t.active b refl
    where
      clean :
          (o : Option ℕ) (a b' : Bool)
          → t.handle ≡ o
          → Clean (
              (if (elim o [ none ↦ false | some k ↦ a ])
                then drop_failed o
                    (perform_active rollback t b' o a)
                    (perform_active rollback t b' o a).reply
                else record { object = t; events = []; reply = done }).events
              ++ es)
      clean none a b' e = c
      clean (some k) false b' e = c
      clean (some k) true false e = (fresh k e, (fresh k e, c))
      clean (some k) true true e = (fresh k e, (fresh k e, c))
