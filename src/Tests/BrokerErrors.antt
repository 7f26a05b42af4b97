-- ===== src/Tests/BrokerErrors.antt =====
-- The theorem on error codes at a known and at an unknown one.
use afkak.Prelude.{◌≡◌, refl, ◌⊎◌, none, some}
use afkak.Prelude.Int.{pos}
use afkak.BrokerErrors.{not_leader_for_partition_error}
use afkak.BrokerErrors.Table.{
  Raised, subclass, unknown, raised_errno, raise_for_errno, raise_for_errno_lem,
}

known_code : raise_for_errno (pos 6) ≡ some (subclass not_leader_for_partition_error)
unfolding raise_for_errno
known_code = refl

unknown_code : raise_for_errno (pos 999) ≡ some (unknown (pos 999))
unfolding raise_for_errno
unknown_code = refl

raise_for_errno_lem_example :
    ((pos 6 ≡ pos 0) × (raise_for_errno (pos 6) ≡ none))
    ⊎ ((e : Raised) × (raise_for_errno (pos 6) ≡ some e) × (raised_errno e ≡ pos 6))
raise_for_errno_lem_example = raise_for_errno_lem (pos 6)
