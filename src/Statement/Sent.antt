-- ===== src/Statement/Sent.antt =====
-- What a call with parameters sends to the engine, and what is read of its answer.
use fbpp.Prelude.{
  ℕ, ◌<◌, ◌≡◌, refl, sym, ◌∙◌, ap, Bool, true, false, List, [], ◌∷◌, Option, none, some, length,
  length-replicate, replicate, arith,
}
use fbpp.Prelude.Ascii.{Bytes}
use fbpp.Prelude.Result.{Result, ok, err}
use fbpp.Message.{FieldInfo}
use fbpp.Codec.{Outside}
use fbpp.Packing.{Value, Kind, pack, unpack}
use fbpp.Packing.RoundTrip.{RowFits, unpack-pack}
use fbpp.Transaction.{Transaction, is_active}
use fbpp.Statement.{
  Statement, executed, Fault, Executed, engine, returns, execute_raw, execute_on, execute_active,
  after_execute, is_valid, or_zero,
}
use fbpp.Statement.Params.{
  data_of, packed_as, input_message, returning_message, execute, execute_returning,
  transaction_execute, transaction_returning,
}

-- A prepared statement in an active transaction.
pub record Ready (st : Statement) (h : ℕ) (t : Transaction) : Type 0 where
  pub is_prepared : st.handle ≡ some h
  pub in_transaction : is_active t ≡ true

-- The engine is asked once, with this message, and what it answers is the result.
abbrev pub answer_of : Executed → Option Bytes → Result Fault (ℕ × Bytes)
answer_of a none = err engine
answer_of a (some out) = ok (or_zero a.affected, out)

abbrev pub succeeded : Option Bytes → Bool
succeeded none = false
succeeded (some out) = true

pub after_execute-eq :
    (st : Statement) (h : ℕ) (tra : Option ℕ) (message : Option Bytes) (a : Executed)
    (o : Option Bytes)
    → ((after_execute st h tra message a o).events ≡ executed h tra message (succeeded o) ∷ [])
      × ((after_execute st h tra message a o).result ≡ answer_of a o)
after_execute-eq st h tra message a none = (refl, refl)
after_execute-eq st h tra message a (some out) = (refl, refl)

pub execute_raw-eq :
    (st : Statement) (h : ℕ) (t : Transaction) (message : Option Bytes) (a : Executed)
    → Ready st h t
    → execute_raw st (some t) message a ≡ after_execute st h t.handle message a a.reply
unfolding execute_raw
execute_raw-eq st h t message a r =
    ap (execute_on st (some t) message a) r.is_prepared
    ∙ ap (execute_active st h message a t) r.in_transaction

is_valid-Ready : (st : Statement) (h : ℕ) (t : Transaction) → Ready st h t → is_valid st ≡ true
is_valid-Ready st h t r =
    ap (λ (o : Option ℕ). elim o [ none ↦ false | some k ↦ true ]) r.is_prepared

data_of-pos : (m : Bytes) → 0 < length m → data_of m ≡ some m
data_of-pos [] h = absurd (omega arith)
data_of-pos (b ∷ bs) h = refl

module _ (size : FieldInfo → ℕ) (fs : List FieldInfo) (n : ℕ) (ks : List Kind) (vs vs' : List Value)
    (fits : RowFits size fs n ks vs vs') (p : 0 < n) where
  -- The message of the parameters.
  packed-pack :
      (E : Outside)
      → (m : Bytes) × (packed_as (pack E true (some (fs, n)) vs (data_of (replicate n 0)))
          ≡ ok (some m))
        × (unpack E true (some fs) ks (some m) ≡ ok vs')
  packed-pack E =
      let l : length (replicate {A = ℕ} n 0) ≡ n = length-replicate {A = ℕ} n 0 in
      let (m, run, length_m, back) =
        unpack-pack E E true true size fs n (replicate n 0) ks vs vs' l fits in
      let there : data_of (replicate n 0) ≡ some (replicate n 0) =
        data_of-pos (replicate n 0) (rw l p) in
      (m, ap packed_as (ap (pack E true (some (fs, n)) vs) there ∙ run), back)

  -- What a packer makes of a row is read as that row.
  unpack-packed :
      (E E' : Outside) (tx : Bool) (buffer out : Bytes)
      → length buffer ≡ n
      → pack E' tx (some (fs, n)) vs (some buffer) ≡ ok out
      → unpack E true (some fs) ks (data_of out) ≡ ok vs'
  unpack-packed E E' tx buffer out l made =
      let (m, run, length_m, back) = unpack-pack E' E tx true size fs n buffer ks vs vs' l fits in
      let both : ok m ≡ ok out = sym run ∙ made in
      let same : m ≡ out = cc in
      let there : data_of out ≡ some out =
        data_of-pos out (rw (← same) (omega (arith, length_m, p))) in
      ap (unpack E true (some fs) ks) there
      ∙ ap (λ x. unpack E true (some fs) ks (some x)) (sym same)
      ∙ back

-- A statement with parameters, executed through an active transaction with values that fit: the
-- engine is asked once, in that transaction, with a message in which its fields have those values,
-- and the result is what it answers, or its exception.
pub transaction_execute-sent :
    (E : Outside) (st : Statement) (h : ℕ) (t : Transaction) (size : FieldInfo → ℕ)
    (fs : List FieldInfo) (n : ℕ) (ks : List Kind) (vs vs' : List Value) (a : Executed)
    → Ready st h t
    → 0 < n
    → RowFits size fs n ks vs vs'
    → (m : Bytes) × (transaction_execute E t (some st) vs (some (some (fs, n))) a
        ≡ (executed h t.handle (some m) (succeeded a.reply) ∷ [], answer_of a a.reply))
      × (unpack E true (some fs) ks (some m) ≡ ok vs')
unfolding transaction_execute execute input_message
transaction_execute-sent E st h t size fs n ks vs vs' a r p fits =
    let (m, packed, back) = packed-pack size fs n ks vs vs' fits p E in
    let eq : _ × _ = after_execute-eq st h t.handle (some m) a a.reply in
    (
      m,
      rw (r.in_transaction, is_valid-Ready st h t r, packed, execute_raw-eq st h t (some m) a r)
          (λ i. (eq.0 i, eq.1 i)),
      back,
    )

-- A statement with a RETURNING clause: where the engine lays the returned row out in the output
-- message as the packer does, the caller gets the affected records and the row's values, a string of
-- a CHAR column without the blanks at its end; the parameters are sent as `execute` sends them.
pub transaction_returning-returned :
    (E E' : Outside) (st : Statement) (h : ℕ) (t : Transaction) (tx : Bool) (size : FieldInfo → ℕ)
    (fs : List FieldInfo) (n : ℕ) (ks : List Kind) (vs vs' : List Value) (fs2 : List FieldInfo)
    (n2 : ℕ) (ks2 : List Kind) (ws ws' : List Value) (buffer out : Bytes) (a : Executed)
    → Ready st h t
    → 0 < n
    → RowFits size fs n ks vs vs'
    → 0 < n2
    → RowFits size fs2 n2 ks2 ws ws'
    → length buffer ≡ n2
    → pack E' tx (some (fs2, n2)) ws (some buffer) ≡ ok out
    → a.reply ≡ some out
    → (m : Bytes) × (transaction_returning E t
          (some st)
          vs
          ks2
          (some (some (fs, n)))
          (some (some (fs2, n2)))
          a
        ≡ (executed h t.handle (some m) true ∷ [], ok (or_zero a.affected, ws')))
      × (unpack E true (some fs) ks (some m) ≡ ok vs')
unfolding transaction_returning execute_returning returning_message
transaction_returning-returned E E' st h t tx size fs n ks vs vs' fs2 n2 ks2 ws ws' buffer out a r p
      fits p2 fits2 l made replied =
    let (m, packed, back) = packed-pack size fs n ks vs vs' fits p E in
    let read : unpack E true (some fs2) ks2 (data_of out) ≡ ok ws' =
      unpack-packed size fs2 n2 ks2 ws ws' fits2 p2 E E' tx buffer out l made in
    let ran : execute_raw st (some t) (some m) a
        ≡ returns st (executed h t.handle (some m) true ∷ []) (or_zero a.affected, out) =
      execute_raw-eq st h t (some m) a r ∙ ap (after_execute st h t.handle (some m) a) replied in
    (m, rw (r.in_transaction, is_valid-Ready st h t r, packed, ran, read) refl, back)
