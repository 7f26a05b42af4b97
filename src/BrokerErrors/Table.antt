-- ===== src/BrokerErrors/Table.antt =====
-- afkak/common.py: the table `BrokerResponseError.errnos` and `raise_for_errno`.
use afkak.Prelude.{
  ◌≡◌, refl, ◌∙◌, ◌⊎◌, inl, inr, Bool, true, false, ◌&&◌, Option, none, some, [], ◌∷◌,
  if◌then◌else◌, Bool-cases,
}
use afkak.Prelude.Int.{ℤ, pos, negsuc, eqb_ℤ, eqb_ℤ→eq}
use afkak.Protocol.Grouping.{Dict, ℤ_eq, lookup}
use afkak.BrokerErrors.{
  BrokerError, errno_of, unknown_error, offset_out_of_range_error, corrupt_message,
  unknown_topic_or_partition_error, invalid_fetch_request_error, leader_not_available_error,
  not_leader_for_partition_error, request_timed_out_error, broker_not_available_error,
  replica_not_available_error, message_size_too_large_error, stale_controller_epoch_error,
  offset_metadata_too_large_error, network_exception, coordinator_load_in_progress,
  coordinator_not_available, not_coordinator, invalid_topic, record_list_too_large,
  not_enough_replicas, not_enough_replicas_after_append, invalid_required_acks, illegal_generation,
  inconsistent_group_protocol, invalid_group_id, unknown_member_id, invalid_session_timeout,
  rebalance_in_progress, invalid_commit_offset_size, topic_authorization_failed,
  group_authorization_failed, cluster_authorization_failed, invalid_timestamp,
  unsupported_sasl_mechanism, illegal_sasl_state, unsupported_version, topic_already_exists,
  invalid_partitions, invalid_replication_factor, invalid_replica_assignment, invalid_config,
  not_controller, invalid_request, unsupported_for_message_format, policy_violation,
  out_of_order_sequence_number, duplicate_sequence_number, invalid_producer_epoch,
  invalid_txn_state, invalid_producer_id_mapping, invalid_transaction_timeout,
  concurrent_transactions, transaction_coordinator_fenced, transactional_id_authorization_failed,
  security_disabled, operation_not_attempted, kafka_storage_error, log_dir_not_found,
  sasl_authentication_failed, unknown_producer_id, reassignment_in_progress,
  delegation_token_auth_disabled, delegation_token_not_found, delegation_token_owner_mismatch,
  delegation_token_request_not_allowed, delegation_token_authorization_failed,
  delegation_token_expired, invalid_principal_type, non_empty_group, group_id_not_found,
  fetch_session_id_not_found, invalid_fetch_session_epoch, listener_not_found,
}

-- BrokerResponseError.errnos
abbrev pub errnos : Dict ℤ BrokerError
errnos =
    (negsuc 0, unknown_error)
    ∷ (pos 1, offset_out_of_range_error)
    ∷ (pos 2, corrupt_message)
    ∷ (pos 3, unknown_topic_or_partition_error)
    ∷ (pos 4, invalid_fetch_request_error)
    ∷ (pos 5, leader_not_available_error)
    ∷ (pos 6, not_leader_for_partition_error)
    ∷ (pos 7, request_timed_out_error)
    ∷ (pos 8, broker_not_available_error)
    ∷ (pos 9, replica_not_available_error)
    ∷ (pos 10, message_size_too_large_error)
    ∷ (pos 11, stale_controller_epoch_error)
    ∷ (pos 12, offset_metadata_too_large_error)
    ∷ (pos 13, network_exception)
    ∷ (pos 14, coordinator_load_in_progress)
    ∷ (pos 15, coordinator_not_available)
    ∷ (pos 16, not_coordinator)
    ∷ (pos 17, invalid_topic)
    ∷ (pos 18, record_list_too_large)
    ∷ (pos 19, not_enough_replicas)
    ∷ (pos 20, not_enough_replicas_after_append)
    ∷ (pos 21, invalid_required_acks)
    ∷ (pos 22, illegal_generation)
    ∷ (pos 23, inconsistent_group_protocol)
    ∷ (pos 24, invalid_group_id)
    ∷ (pos 25, unknown_member_id)
    ∷ (pos 26, invalid_session_timeout)
    ∷ (pos 27, rebalance_in_progress)
    ∷ (pos 28, invalid_commit_offset_size)
    ∷ (pos 29, topic_authorization_failed)
    ∷ (pos 30, group_authorization_failed)
    ∷ (pos 31, cluster_authorization_failed)
    ∷ (pos 32, invalid_timestamp)
    ∷ (pos 33, unsupported_sasl_mechanism)
    ∷ (pos 34, illegal_sasl_state)
    ∷ (pos 35, unsupported_version)
    ∷ (pos 36, topic_already_exists)
    ∷ (pos 37, invalid_partitions)
    ∷ (pos 38, invalid_replication_factor)
    ∷ (pos 39, invalid_replica_assignment)
    ∷ (pos 40, invalid_config)
    ∷ (pos 41, not_controller)
    ∷ (pos 42, invalid_request)
    ∷ (pos 43, unsupported_for_message_format)
    ∷ (pos 44, policy_violation)
    ∷ (pos 45, out_of_order_sequence_number)
    ∷ (pos 46, duplicate_sequence_number)
    ∷ (pos 47, invalid_producer_epoch)
    ∷ (pos 48, invalid_txn_state)
    ∷ (pos 49, invalid_producer_id_mapping)
    ∷ (pos 50, invalid_transaction_timeout)
    ∷ (pos 51, concurrent_transactions)
    ∷ (pos 52, transaction_coordinator_fenced)
    ∷ (pos 53, transactional_id_authorization_failed)
    ∷ (pos 54, security_disabled)
    ∷ (pos 55, operation_not_attempted)
    ∷ (pos 56, kafka_storage_error)
    ∷ (pos 57, log_dir_not_found)
    ∷ (pos 58, sasl_authentication_failed)
    ∷ (pos 59, unknown_producer_id)
    ∷ (pos 60, reassignment_in_progress)
    ∷ (pos 61, delegation_token_auth_disabled)
    ∷ (pos 62, delegation_token_not_found)
    ∷ (pos 63, delegation_token_owner_mismatch)
    ∷ (pos 64, delegation_token_request_not_allowed)
    ∷ (pos 65, delegation_token_authorization_failed)
    ∷ (pos 66, delegation_token_expired)
    ∷ (pos 67, invalid_principal_type)
    ∷ (pos 68, non_empty_group)
    ∷ (pos 69, group_id_not_found)
    ∷ (pos 70, fetch_session_id_not_found)
    ∷ (pos 71, invalid_fetch_session_epoch)
    ∷ (pos 72, listener_not_found)
    ∷ []

-- What is raised: a subclass, or BrokerResponseError itself with its `errno` set.
pub data Raised : Type 0 where
  subclass : BrokerError → Raised
  unknown : ℤ → Raised

abbrev pub raised_errno : Raised → ℤ
raised_errno (subclass e) = errno_of e
raised_errno (unknown errno) = errno

abbrev pub by_class : ℤ → Option BrokerError → Raised
by_class errno none = unknown errno
by_class errno (some e) = subclass e

unfoldable pub raise_for_errno : ℤ → Option Raised
unfolding lookup
raise_for_errno errno =
    if eqb_ℤ errno (pos 0) then none else some (by_class errno (lookup errno errnos))

abbrev consistent : Dict ℤ BrokerError → Bool
consistent [] = true
consistent ((k, e) ∷ d) = eqb_ℤ (errno_of e) k && consistent d

lookup-consistent :
    (d : Dict ℤ BrokerError) (errno : ℤ)
    → consistent d ≡ true
    → raised_errno (by_class errno (lookup errno d)) ≡ errno
unfolding lookup
lookup-consistent [] errno h = refl
lookup-consistent ((k, e) ∷ d) errno h =
    let (own, others) = both (eqb_ℤ (errno_of e) k) (consistent d) h in
    elim (Bool-cases (eqb_ℤ k errno)) [
      | inl same ↦ rw same (eqb_ℤ→eq (errno_of e) k own ∙ eqb_ℤ→eq k errno same)
      | inr other ↦ rw other (lookup-consistent d errno others)
    ]
  where
    both : (a b : Bool) → (a && b) ≡ true → (a ≡ true) × (b ≡ true)
    both true b g = (refl, g)
    both false b g = cc

errnos-consistent : consistent errnos ≡ true
errnos-consistent = refl

-- Of the error code 0 nothing is made. For any other code an exception is raised whose own `errno`
-- is that code, whether a subclass is defined for it or not.
pub raise_for_errno_lem :
    (errno : ℤ)
    → ((errno ≡ pos 0) × (raise_for_errno errno ≡ none))
      ⊎ ((e : Raised) × (raise_for_errno errno ≡ some e) × (raised_errno e ≡ errno))
unfolding raise_for_errno
raise_for_errno_lem errno = elim (Bool-cases (eqb_ℤ errno (pos 0))) [
  | inl zero_code ↦ inl (eqb_ℤ→eq errno (pos 0) zero_code, rw zero_code)
  | inr other ↦ inr (
    by_class errno (lookup errno errnos),
    rw other,
    lookup-consistent errnos errno errnos-consistent,
  )
]
