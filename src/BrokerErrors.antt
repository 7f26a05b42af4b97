-- ===== src/BrokerErrors.antt =====
-- afkak/common.py: the classes of the errors that brokers report.
pub mod Table
use afkak.Prelude.{Bool, true, false}
use afkak.Prelude.Int.{ℤ, pos, negsuc}
use afkak.Protocol.Grouping.{ℤ_eq}

-- The subclasses of BrokerResponseError, one for each error code that is known.
pub data BrokerError : Type 0 where
  unknown_error offset_out_of_range_error corrupt_message : BrokerError
  unknown_topic_or_partition_error invalid_fetch_request_error leader_not_available_error :
      BrokerError
  not_leader_for_partition_error request_timed_out_error broker_not_available_error : BrokerError
  replica_not_available_error message_size_too_large_error stale_controller_epoch_error :
      BrokerError
  offset_metadata_too_large_error network_exception coordinator_load_in_progress : BrokerError
  coordinator_not_available not_coordinator invalid_topic : BrokerError
  record_list_too_large not_enough_replicas not_enough_replicas_after_append : BrokerError
  invalid_required_acks illegal_generation inconsistent_group_protocol : BrokerError
  invalid_group_id unknown_member_id invalid_session_timeout : BrokerError
  rebalance_in_progress invalid_commit_offset_size topic_authorization_failed : BrokerError
  group_authorization_failed cluster_authorization_failed invalid_timestamp : BrokerError
  unsupported_sasl_mechanism illegal_sasl_state unsupported_version : BrokerError
  topic_already_exists invalid_partitions invalid_replication_factor : BrokerError
  invalid_replica_assignment invalid_config not_controller : BrokerError
  invalid_request unsupported_for_message_format policy_violation : BrokerError
  out_of_order_sequence_number duplicate_sequence_number invalid_producer_epoch : BrokerError
  invalid_txn_state invalid_producer_id_mapping invalid_transaction_timeout : BrokerError
  concurrent_transactions transaction_coordinator_fenced transactional_id_authorization_failed :
      BrokerError
  security_disabled operation_not_attempted kafka_storage_error : BrokerError
  log_dir_not_found sasl_authentication_failed unknown_producer_id : BrokerError
  reassignment_in_progress delegation_token_auth_disabled delegation_token_not_found : BrokerError
  delegation_token_owner_mismatch delegation_token_request_not_allowed
        delegation_token_authorization_failed :
      BrokerError
  delegation_token_expired invalid_principal_type non_empty_group : BrokerError
  group_id_not_found fetch_session_id_not_found invalid_fetch_session_epoch : BrokerError
  listener_not_found : BrokerError

-- The class attribute `errno`.
abbrev pub errno_of : BrokerError → ℤ
errno_of unknown_error = negsuc 0
errno_of offset_out_of_range_error = pos 1
errno_of corrupt_message = pos 2
errno_of unknown_topic_or_partition_error = pos 3
errno_of invalid_fetch_request_error = pos 4
errno_of leader_not_available_error = pos 5
errno_of not_leader_for_partition_error = pos 6
errno_of request_timed_out_error = pos 7
errno_of broker_not_available_error = pos 8
errno_of replica_not_available_error = pos 9
errno_of message_size_too_large_error = pos 10
errno_of stale_controller_epoch_error = pos 11
errno_of offset_metadata_too_large_error = pos 12
errno_of network_exception = pos 13
errno_of coordinator_load_in_progress = pos 14
errno_of coordinator_not_available = pos 15
errno_of not_coordinator = pos 16
errno_of invalid_topic = pos 17
errno_of record_list_too_large = pos 18
errno_of not_enough_replicas = pos 19
errno_of not_enough_replicas_after_append = pos 20
errno_of invalid_required_acks = pos 21
errno_of illegal_generation = pos 22
errno_of inconsistent_group_protocol = pos 23
errno_of invalid_group_id = pos 24
errno_of unknown_member_id = pos 25
errno_of invalid_session_timeout = pos 26
errno_of rebalance_in_progress = pos 27
errno_of invalid_commit_offset_size = pos 28
errno_of topic_authorization_failed = pos 29
errno_of group_authorization_failed = pos 30
errno_of cluster_authorization_failed = pos 31
errno_of invalid_timestamp = pos 32
errno_of unsupported_sasl_mechanism = pos 33
errno_of illegal_sasl_state = pos 34
errno_of unsupported_version = pos 35
errno_of topic_already_exists = pos 36
errno_of invalid_partitions = pos 37
errno_of invalid_replication_factor = pos 38
errno_of invalid_replica_assignment = pos 39
errno_of invalid_config = pos 40
errno_of not_controller = pos 41
errno_of invalid_request = pos 42
errno_of unsupported_for_message_format = pos 43
errno_of policy_violation = pos 44
errno_of out_of_order_sequence_number = pos 45
errno_of duplicate_sequence_number = pos 46
errno_of invalid_producer_epoch = pos 47
errno_of invalid_txn_state = pos 48
errno_of invalid_producer_id_mapping = pos 49
errno_of invalid_transaction_timeout = pos 50
errno_of concurrent_transactions = pos 51
errno_of transaction_coordinator_fenced = pos 52
errno_of transactional_id_authorization_failed = pos 53
errno_of security_disabled = pos 54
errno_of operation_not_attempted = pos 55
errno_of kafka_storage_error = pos 56
errno_of log_dir_not_found = pos 57
errno_of sasl_authentication_failed = pos 58
errno_of unknown_producer_id = pos 59
errno_of reassignment_in_progress = pos 60
errno_of delegation_token_auth_disabled = pos 61
errno_of delegation_token_not_found = pos 62
errno_of delegation_token_owner_mismatch = pos 63
errno_of delegation_token_request_not_allowed = pos 64
errno_of delegation_token_authorization_failed = pos 65
errno_of delegation_token_expired = pos 66
errno_of invalid_principal_type = pos 67
errno_of non_empty_group = pos 68
errno_of group_id_not_found = pos 69
errno_of fetch_session_id_not_found = pos 70
errno_of invalid_fetch_session_epoch = pos 71
errno_of listener_not_found = pos 72

-- The class attribute `retriable`, which RetriableBrokerResponseError passes on to its subclasses.
abbrev pub is_retriable : BrokerError → Bool
is_retriable corrupt_message = true
is_retriable unknown_topic_or_partition_error = true
is_retriable leader_not_available_error = true
is_retriable not_leader_for_partition_error = true
is_retriable request_timed_out_error = true
is_retriable network_exception = true
is_retriable coordinator_load_in_progress = true
is_retriable coordinator_not_available = true
is_retriable not_coordinator = true
is_retriable not_enough_replicas = true
is_retriable not_enough_replicas_after_append = true
is_retriable not_controller = true
is_retriable kafka_storage_error = true
is_retriable fetch_session_id_not_found = true
is_retriable invalid_fetch_session_epoch = true
is_retriable listener_not_found = true
is_retriable _ = false
