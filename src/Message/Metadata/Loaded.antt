-- ===== src/Message/Metadata/Loaded.antt =====
-- When the engine is asked for the fields.
use fbpp.Prelude.{
  ◌+◌, ◌≡◌, refl, sym, ◌∙◌, ap, Bool, true, false, List, some, if◌then◌else◌, inl, inr, Bool-cases,
}
use mathlib.Core.Path.{subst}
use fbpp.Prelude.Result.{Result}
use fbpp.Message.{FieldInfo}
use fbpp.Message.Metadata.{
  Fault, Metadata, Loading, describes, throws_at_count, throws_at, fresh, loaded, ask, ask_fields,
  load_from, load_fields, read_loaded, with_fields,
}

-- The description is there, and what is loaded is loaded from it.
pub record IsCached (fs : List FieldInfo) (m : Metadata) : Type 0 where
  pub described : m.metadata ≡ some fs
  pub cached : m.fields_loaded ≡ true → loaded m fs ≡ m

pub fresh-IsCached : (fs : List FieldInfo) → IsCached fs (fresh fs)
fresh-IsCached fs = record { described = refl; cached = λ h. absurd (cc) }

-- What a loading that succeeds makes of it: the engine is asked only if nothing was loaded.
abbrev pub after_loading : List FieldInfo → Metadata → Metadata
after_loading fs m = record (loaded m fs) {
  asked = (if m.fields_loaded then m.asked else m.asked + 1);
}

kept-eq :
    (fs : List FieldInfo) (m : Metadata)
    → IsCached fs m
    → m.fields_loaded ≡ true
    → after_loading fs m ≡ m
kept-eq fs m c e =
    ap (λ (b : Bool). record (loaded m fs) { asked = (if b then m.asked else m.asked + 1) }) e
    ∙ c.cached e

load_fields-kept :
    (fs : List FieldInfo) (m : Metadata) (a : Loading)
    → IsCached fs m
    → m.fields_loaded ≡ true
    → load_fields m a ≡ (m, true)
unfolding load_fields
load_fields-kept fs m a c e =
    ap (λ o. load_from m o a m.fields_loaded) c.described ∙ ap (λ b. load_from m (some fs) a b) e

load_fields-asked :
    (fs : List FieldInfo) (m : Metadata) (a : Loading)
    → IsCached fs m
    → m.fields_loaded ≡ false
    → load_fields m a ≡ ask_fields (ask m) fs a
unfolding load_fields
load_fields-asked fs m a c e =
    ap (λ o. load_from m o a m.fields_loaded) c.described ∙ ap (λ b. load_from m (some fs) a b) e

load_fields-loaded :
    (fs : List FieldInfo) (m : Metadata)
    → IsCached fs m
    → load_fields m describes ≡ (after_loading fs m, true)
load_fields-loaded fs m c = elim (Bool-cases m.fields_loaded) [
  | inl e ↦ load_fields-kept fs m describes c e ∙ ap (λ n. (n, true)) (sym (kept-eq fs m c e))
  | inr e ↦
      load_fields-asked fs m describes c e
      ∙ ap
          (λ (b : Bool).
            (record (loaded m fs) { asked = (if b then m.asked else m.asked + 1) }, true))
          (sym e)
]

pub after_loading-IsCached :
    (fs : List FieldInfo) (m : Metadata) → IsCached fs m → IsCached fs (after_loading fs m)
after_loading-IsCached fs m c = record { described = c.described; cached = λ h. refl }

ask_fields-IsCached :
    (fs : List FieldInfo) (m : Metadata) (a : Loading)
    → m.metadata ≡ some fs
    → m.fields_loaded ≡ false
    → IsCached fs (ask_fields (ask m) fs a).0
ask_fields-IsCached fs m describes d e = record { described = d; cached = λ h. refl }
ask_fields-IsCached fs m throws_at_count d e = record { described = d; cached = λ h. absurd (cc) }
ask_fields-IsCached fs m (throws_at k) d e = record { described = d; cached = λ h. absurd (cc) }

-- However the engine meets it, a loading leaves what is loaded from the description or nothing.
load_fields-IsCached :
    (fs : List FieldInfo) (m : Metadata) (a : Loading)
    → IsCached fs m
    → IsCached fs (load_fields m a).0
load_fields-IsCached fs m a c = elim (Bool-cases m.fields_loaded) [
  | inl e ↦ rw (load_fields-kept fs m a c e) c
  | inr e ↦ rw (load_fields-asked fs m a c e) (ask_fields-IsCached fs m a c.described e)
]

pub with_fields-loaded {ℓ} :
    {A : Type ℓ} (fs : List FieldInfo) (m : Metadata) (read : Metadata → Result Fault A)
    → IsCached fs m
    → with_fields m m.metadata describes read ≡ (after_loading fs m, read (after_loading fs m))
with_fields-loaded fs m read c =
    ap (λ o. with_fields m o describes read) c.described
    ∙ ap (λ l. read_loaded l read) (load_fields-loaded fs m c)

pub with_fields-kept {ℓ} :
    {A : Type ℓ} (fs : List FieldInfo) (m : Metadata) (a : Loading)
    (read : Metadata → Result Fault A)
    → IsCached fs m
    → m.fields_loaded ≡ true
    → with_fields m m.metadata a read ≡ (m, read m)
with_fields-kept fs m a read c e =
    ap (λ o. with_fields m o a read) c.described
    ∙ ap (λ l. read_loaded l read) (load_fields-kept fs m a c e)

read_loaded-state {ℓ} :
    {A : Type ℓ} (l : Metadata × Bool) (read : Metadata → Result Fault A)
    → (read_loaded l read).0 ≡ l.0
read_loaded-state (l, true) read = refl
read_loaded-state (l, false) read = refl

with_fields-state {ℓ} :
    {A : Type ℓ} (fs : List FieldInfo) (m : Metadata) (a : Loading)
    (read : Metadata → Result Fault A)
    → IsCached fs m
    → (with_fields m m.metadata a read).0 ≡ (load_fields m a).0
with_fields-state fs m a read c =
    ap (λ o. (with_fields m o a read).0) c.described ∙ read_loaded-state (load_fields m a) read

-- Whatever reads the fields, and however the engine meets the loading.
pub with_fields-IsCached {ℓ} :
    {A : Type ℓ} (fs : List FieldInfo) (m : Metadata) (a : Loading)
    (read : Metadata → Result Fault A)
    → IsCached fs m
    → IsCached fs (with_fields m m.metadata a read).0
with_fields-IsCached fs m a read c =
    subst (λ (n : Metadata). IsCached fs n) (sym (with_fields-state fs m a read c))
      (load_fields-IsCached fs m a c)
