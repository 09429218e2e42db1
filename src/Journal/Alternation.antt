-- ===== src/Journal/Alternation.antt =====
-- Histories of the journal: what is prepared is read back, and stays until it is completed.
use defiant_agent_harness.Common.{
  String, true, false, ◌≡◌, refl, subst, ap, Option, none, some, List, [], ◌∷◌, ◌⊎◌, inl, inr, ◌==◌,
  eq_iff, All, Bool-cases, arith,
}
use defiant_agent_harness.Common.Files.{Saved-cases}
use defiant_agent_harness.Common.Result.{Result, ok, err, Result-cases}
use defiant_agent_harness.Journal.Types.{Text, Payload, Operation, File, JournalError, Host}
use defiant_agent_harness.Journal.Store.{
  starts_as_id, prepare_operation, active, to_dict, document, prepare, complete_over, complete,
  stored, write,
}
use defiant_agent_harness.Journal.Stored.{
  from_dict-to_dict, active-document, active-document_none, stored-document, prepare_busy,
  prepare_unread, prepare_free, fresh-IsMade, stored-active,
}

abbrev Answer : Type 0
Answer = Result JournalError Operation × File

refused :
    (r : Answer) (e : JournalError) (file : File) (op : Operation)
    → r ≡ (err e, file)
    → r.0 ≡ ok op
    → ⊥
refused r e file op h g =
    let f : r.0 ≡ err e = ap (λ (q : Answer). q.0) h in absurd (ground (arith, f, g))

same_answer :
    (r : Answer) (made op : Operation) (file : File) → r ≡ (ok made, file) → r.0 ≡ ok op → made ≡ op
same_answer r made op file h g =
    let f : r.0 ≡ ok made = ap (λ (q : Answer). q.0) h in ground (arith, f, g)

module _ (host : Host) where
  -- An operation that `prepare` returns, with an id that has the prefix and a reading of the clock
  -- that is not empty, is the one that `active` then reads from the file, where the whole operation is
  -- within the journal's bounds and the file within the reader's.
  pub prepare-active :
      (kind : Text) (payload : Option Payload) (id now : String) (file : File) (op : Operation)
      → starts_as_id id ≡ true
      → (now == "") ≡ false
      → host.is_bounded_operation (to_dict op) ≡ true
      → host.is_readable op ≡ true
      → (prepare host kind payload id now file).0 ≡ ok op
      → active host (prepare host kind payload id now file).1 ≡ ok (some op)
  prepare-active kind payload id now file op i t w q h = elim (Result-cases (active host file)) [
    | inr (x, e) ↦
        let (y, f) = prepare_unread host kind payload id now file x e in
        absurd (refused _ y file op f h)
    | inl (some other, e) ↦
        let (y, f) = prepare_busy host kind payload id now file other e in
        absurd (refused _ y file op f h)
    | inl (none, e) ↦ elim (prepare_free host kind payload id now file e) [
      | inl (made, m, inl f) ↦
          let same = same_answer _ made op (stored host (some made)) f h in
          let (i', t', g) =
            fresh-IsMade host kind payload id now op i t
              (subst (λ x. prepare_operation host kind payload id now ≡ ok x) same m) in
          rw (f, same, stored-document host op q)
            (active-document host op (from_dict-to_dict host op i' t' g w))
      | inl (made, m, inr f) ↦
          absurd (refused _ JournalError.unsynced (stored host (some made)) op f h)
      | inr (y, f) ↦ absurd (refused _ y file op f h)
    ]
  ]

-- A call of `prepare` with its new id and the reading of the clock, or of `complete`.
pub data Call : Type 0 where
  prepares : Text → Option Payload → String → String → Call
  completes : String → Call

-- What a call did to the file, with the operation's id.
pub data Event : Type 0 where
  began ended : String → Event

abbrev Standing : Type 0
Standing = Result JournalError (Option Operation)

-- What a call that raised did, by what was active before and after it.
abbrev changed : Standing → Standing → List Event → List Event
changed (ok none) (ok (some op)) es = began op.operation_id ∷ es
changed (ok (some op)) (ok none) es = ended op.operation_id ∷ es
changed before after es = es

abbrev began_if : Host → File → Result JournalError Operation × File → List Event → List Event
began_if host file (ok op, file') es = began op.operation_id ∷ es
began_if host file (err e, file') es = changed (active host file) (active host file') es

abbrev ended_if :
    Host → File → String → Result JournalError (Unit {0}) × File → List Event → List Event
ended_if host file id (ok u, file') es = ended id ∷ es
ended_if host file id (err e, file') es = changed (active host file) (active host file') es

unfoldable pub events : Host → List Call → File → List Event
events host [] file = []
events host (prepares kind payload id now ∷ cs) file =
    let r = prepare host kind payload id now file in began_if host file r (events host cs r.1)
events host (completes id ∷ cs) file =
    let r = complete host id file in ended_if host file id r (events host cs r.1)

-- Each operation ends before the next one begins; the option is the one that has begun.
abbrev pub Alternates : Option String → List Event → Type 0
Alternates x [] = Unit
Alternates none (began i ∷ es) = Alternates (some i) es
Alternates none (ended i ∷ es) = ⊥
Alternates (some i) (began j ∷ es) = ⊥
Alternates (some i) (ended j ∷ es) = (i ≡ j) × Alternates none es

-- New ids have their prefix and the clock's readings are texts.
abbrev pub IsFresh : Call → Type 0
IsFresh (prepares kind payload id now) = (starts_as_id id ≡ true) × ((now == "") ≡ false)
IsFresh (completes id) = Unit

complete_idle :
    (host : Host) (id : String) (file : File)
    → active host file ≡ ok none
    → complete host id file ≡ (err JournalError.nothing_active, file)
unfolding complete complete_over
complete_idle host id file h = rw (h, complete) refl

complete_active :
    (host : Host) (id : String) (file : File) (op : Operation)
    → active host file ≡ ok (some op)
    → ((op.operation_id ≡ id)
        × ((complete host id file ≡ (ok tt, document none))
            ⊎ (complete host id file ≡ (err JournalError.unsynced, document none))))
      ⊎ ((e : JournalError) × (complete host id file ≡ (err e, file)))
unfolding complete complete_over write stored
complete_active host id file op h = elim (Bool-cases (op.operation_id == id)) [
  | inl e ↦ elim (Saved-cases (host.saves none)) [
    | inl s ↦ inl ((eq_iff op.operation_id id).0 e, inl (rw (h, complete, e, write, s) refl))
    | inr (inl s) ↦ inr (JournalError.write_failed, rw (h, complete, e, write, s) refl)
    | inr (inr s) ↦ inl ((eq_iff op.operation_id id).0 e, inr (rw (h, complete, e, write, s) refl))
  ]
  | inr n ↦ inr (JournalError.wrong_id, rw (h, complete, n) refl)
]

complete_unread :
    (host : Host) (id : String) (file : File) (x : JournalError)
    → active host file ≡ err x
    → complete host id file ≡ (err x, file)
unfolding complete
complete_unread host id file x h = rw (h, complete) refl

-- On a file that cannot be read every call raises, and nothing begins or ends.
events_unread :
    (host : Host) (cs : List Call) (file : File) (x : JournalError)
    → active host file ≡ err x
    → events host cs file ≡ []
unfolding events
events_unread host [] file x h = refl
events_unread host (prepares kind payload id now ∷ cs) file x h =
    let (y, e) = prepare_unread host kind payload id now file x h in
    rw (e, h) (events_unread host cs file x h)
events_unread host (completes id ∷ cs) file x h =
    rw (complete_unread host id file x h, h) (events_unread host cs file x h)

abbrev pub id_of : Option Operation → Option String
id_of none = none
id_of (some op) = some op.operation_id

-- In any sequence of calls with fresh ids, on a file whose active operation is known, each operation
-- that begins ends before another begins, and nothing else ends. An operation begins where `prepare`
-- returns it, or raises with the operation active in the file; it ends where `complete` returns, or
-- raises with no operation active any more.
pub events-Alternates :
    (host : Host) (cs : List Call) (file : File) (o : Option Operation)
    → All IsFresh cs
    → active host file ≡ ok o
    → Alternates (id_of o) (events host cs file)
unfolding events
events-Alternates host [] file o fresh h = tt
events-Alternates host (prepares kind payload id now ∷ cs) file none (f, fs) h =
    elim (prepare_free host kind payload id now file h) [
      | inl (op, made, answer) ↦
          let (i, t, g) = fresh-IsMade host kind payload id now op f.0 f.1 made in
          elim (stored-active host op i t g) [
            | inl there ↦
                let below = events-Alternates host cs (stored host (some op)) (some op) fs there in
                elim answer [ inl e ↦ rw (e, events) below | inr e ↦ rw (e, h, there) below ]
            | inr (x, lost) ↦
                let nothing = events_unread host cs (stored host (some op)) x lost in
                elim answer [ inl e ↦ rw (e, nothing) tt | inr e ↦ rw (e, h, lost, nothing) tt ]
          ]
      | inr (x, e) ↦ rw (e, h) (events-Alternates host cs file none fs h)
    ]
events-Alternates host (prepares kind payload id now ∷ cs) file (some op) (f, fs) h =
    let (x, e) = prepare_busy host kind payload id now file op h in
    rw (e, h) (events-Alternates host cs file (some op) fs h)
events-Alternates host (completes id ∷ cs) file none (f, fs) h =
    rw (complete_idle host id file h, h) (events-Alternates host cs file none fs h)
events-Alternates host (completes id ∷ cs) file (some op) (f, fs) h =
    let idle = active-document_none host in
    let below = events-Alternates host cs (document none) none fs idle in
    elim (complete_active host id file op h) [
      | inl (same, inl e) ↦ rw (e, events) (same, below)
      | inl (same, inr e) ↦ rw (e, h, idle) (refl, below)
      | inr (x, e) ↦ rw (e, h) (events-Alternates host cs file (some op) fs h)
    ]
