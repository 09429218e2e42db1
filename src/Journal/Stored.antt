-- ===== src/Journal/Stored.antt =====
-- What `prepare` makes and writes, and what `active` reads of the file that holds it.
use defiant_agent_harness.Common.{
  String, true, false, ◌≡◌, refl, sym, subst, Option, none, some, ◌⊎◌, inl, inr, ◌==◌, eq_iff,
  Bool-cases, arith,
}
use defiant_agent_harness.Common.Files.{Saved-cases}
use defiant_agent_harness.Common.Result.{ok, err, Result-cases}
use defiant_agent_harness.Journal.Types.{Kind, Text, Payload, Operation, File, JournalError, Host}
use defiant_agent_harness.Journal.Validate.{is_value, check_text, validate_payload}
use defiant_agent_harness.Journal.Store.{
  check_kind, kind_named, name_of, check_payload, starts_as_id, is_operation_id, is_given,
  prepare_operation, from_dict, read_active, is_supported, active, to_dict, document, prepare_over,
  prepare, stored, write,
}

kind_named-name_of : (k : Kind) → kind_named (name_of k) ≡ some k
unfolding kind_named name_of
kind_named-name_of Kind.approval_create = refl
kind_named-name_of Kind.approval_reject = refl
kind_named-name_of Kind.approval_expire = refl
kind_named-name_of Kind.authorization_reconcile = refl
kind_named-name_of Kind.execution_complete = refl

module _ (host : Host) where
  -- What an operation fulfils that `prepare_operation` makes.
  abbrev pub IsMade : Operation → Type 0
  IsMade op =
      (host.is_bounded op.payload ≡ true)
      × (op.payload_hash ≡ host.digest op.payload)
      × (validate_payload host.is_timestamp op.kind op.payload ≡ ok tt)

  pub prepare_operation-IsMade :
      (kind : Text) (payload : Option Payload) (id now : String) (op : Operation)
      → prepare_operation host kind payload id now ≡ ok op
      → (op.operation_id ≡ id) × (op.prepared_at ≡ now) × IsMade op
  unfolding prepare_operation
  prepare_operation-IsMade kind payload id now op h = elim (Result-cases (check_kind kind)) [
    | inl (k, e1) ↦ elim (Result-cases (check_payload payload)) [
      | inl (p, e2) ↦ elim (Result-cases (validate_payload host.is_timestamp k p)) [
        | inl (u, e3) ↦ ground (arith, e1, e2, e3, h)
        | inr (e, f) ↦ absurd (ground (arith, e1, e2, f))
      ]
      | inr (e, f) ↦ absurd (ground (arith, e1, f))
    ]
    | inr (e, f) ↦ absurd (ground (arith, f))
  ]

  pub from_dict-to_dict :
      (op : Operation)
      → starts_as_id op.operation_id ≡ true
      → (op.prepared_at == "") ≡ false
      → IsMade op
      → host.is_bounded_operation (to_dict op) ≡ true
      → from_dict host (to_dict op) ≡ ok op
  unfolding from_dict to_dict check_kind check_payload is_operation_id is_given is_value check_text
  from_dict-to_dict op i t (b, d, v) w =
      ground (arith, kind_named-name_of op.kind, eq_iff op.payload_hash (host.digest op.payload))

  pub active-document :
      (op : Operation)
      → from_dict host (to_dict op) ≡ ok op
      → active host (document (some op)) ≡ ok (some op)
  unfolding active document read_active is_supported is_value
  active-document op h = rw h refl

  oversized-active :
      (op : Operation)
      → host.is_bounded_operation (to_dict op) ≡ false
      → active host (document (some op)) ≡ err JournalError.oversized
  unfolding active document read_active is_supported is_value from_dict
  oversized-active op h = rw h refl

  pub stored-document :
      (op : Operation) → host.is_readable op ≡ true → stored host (some op) ≡ document (some op)
  unfolding stored
  stored-document op h = rw h refl

  pub active-document_none : active host (document none) ≡ ok none
  unfolding active document read_active is_supported is_value
  active-document_none = refl

  pub prepare_busy :
      (kind : Text) (payload : Option Payload) (id now : String) (file : File) (other : Operation)
      → active host file ≡ ok (some other)
      → (e : JournalError) × (prepare host kind payload id now file ≡ (err e, file))
  unfolding prepare prepare_over
  prepare_busy kind payload id now file other h =
      elim (Result-cases (prepare_operation host kind payload id now)) [
        | inl (op, e) ↦ (JournalError.requires_recovery, rw (e, h, prepare) refl)
        | inr (x, e) ↦ (x, rw (e, prepare) refl)
      ]

  pub prepare_unread :
      (kind : Text) (payload : Option Payload) (id now : String) (file : File) (x : JournalError)
      → active host file ≡ err x
      → (e : JournalError) × (prepare host kind payload id now file ≡ (err e, file))
  unfolding prepare
  prepare_unread kind payload id now file x h =
      elim (Result-cases (prepare_operation host kind payload id now)) [
        | inl (op, e) ↦ (x, rw (e, h, prepare) refl)
        | inr (y, e) ↦ (y, rw (e, prepare) refl)
      ]

  -- What a call of `prepare` comes to where no operation is active: it returns or raises with the
  -- operation in the file, or raises and leaves the file.
  pub prepare_free :
      (kind : Text) (payload : Option Payload) (id now : String) (file : File)
      → active host file ≡ ok none
      → ((op : Operation) × (prepare_operation host kind payload id now ≡ ok op)
          × ((prepare host kind payload id now file ≡ (ok op, stored host (some op)))
              ⊎ (prepare host kind payload id now file
                  ≡ (err JournalError.unsynced, stored host (some op)))))
        ⊎ ((e : JournalError) × (prepare host kind payload id now file ≡ (err e, file)))
  unfolding prepare prepare_over write
  prepare_free kind payload id now file h =
      elim (Result-cases (prepare_operation host kind payload id now)) [
        | inl (op, e) ↦ elim (Saved-cases (host.saves (some op))) [
          | inl s ↦ inl (op, e, inl (rw (e, h, prepare, prepare_over, write, s) refl))
          | inr (inl s) ↦
              inr (JournalError.write_failed, rw (e, h, prepare, prepare_over, write, s) refl)
          | inr (inr s) ↦ inl (op, e, inr (rw (e, h, prepare, prepare_over, write, s) refl))
        ]
        | inr (x, e) ↦ inr (x, rw (e, prepare) refl)
      ]

  pub fresh-IsMade :
      (kind : Text) (payload : Option Payload) (id now : String) (op : Operation)
      → starts_as_id id ≡ true
      → (now == "") ≡ false
      → prepare_operation host kind payload id now ≡ ok op
      → (starts_as_id op.operation_id ≡ true) × ((op.prepared_at == "") ≡ false) × IsMade op
  fresh-IsMade kind payload id now op i t h =
      let (same_id, same_time, made) = prepare_operation-IsMade kind payload id now op h in
      (
        subst (λ x. starts_as_id x ≡ true) (sym same_id) i,
        subst (λ x. (x == "") ≡ false) (sym same_time) t,
        made,
      )

  -- What `active` says of the file of an operation that was made: the operation, or an error.
  pub stored-active :
      (op : Operation)
      → starts_as_id op.operation_id ≡ true
      → (op.prepared_at == "") ≡ false
      → IsMade op
      → (active host (stored host (some op)) ≡ ok (some op))
        ⊎ ((x : JournalError) × (active host (stored host (some op)) ≡ err x))
  unfolding stored active
  stored-active op i t made = elim (Bool-cases (host.is_readable op)) [
    | inr n ↦ inr (JournalError.unreadable, rw n refl)
    | inl q ↦ elim (Bool-cases (host.is_bounded_operation (to_dict op))) [
      | inl w ↦ inl (rw q (active-document op (from_dict-to_dict op i t made w)))
      | inr n ↦ inr (JournalError.oversized, rw q (oversized-active op n))
    ]
  ]
