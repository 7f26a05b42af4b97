-- ===== src/Protocol/Data.antt =====
-- afkak/common.py: the tuples that requests are encoded from and responses are decoded to.
use afkak.Prelude.{Option, List}
use afkak.Prelude.Int.{ℤ}
use afkak.Wire.Struct.{Bytes}
use afkak.Wire.Text.{Text}
use afkak.Generator.{Gen}
use afkak.MessageSet.{Message, OffsetAndMessage}

pub record ProduceRequest : Type 0 where
  pub topic : Text
  pub partition : ℤ
  pub messages : List Message

pub record FetchRequest : Type 0 where
  pub topic : Text
  pub partition : ℤ
  pub offset : ℤ
  pub max_bytes : ℤ

pub record OffsetRequest : Type 0 where
  pub topic : Text
  pub partition : ℤ
  pub time : ℤ
  pub max_offsets : ℤ

pub record OffsetCommitRequest : Type 0 where
  pub topic : Text
  pub partition : ℤ
  pub offset : ℤ
  pub timestamp : ℤ
  pub metadata : Option Bytes

pub record OffsetFetchRequest : Type 0 where
  pub topic : Text
  pub partition : ℤ

pub record ProduceResponse : Type 0 where
  pub topic : Text
  pub partition : ℤ
  pub error : ℤ
  pub offset : ℤ

-- `messages` is the generator that decodes the message set.
pub record FetchResponse : Type 0 where
  pub topic : Text
  pub partition : ℤ
  pub error : ℤ
  pub highwater_mark : ℤ
  pub messages : Gen OffsetAndMessage

pub record OffsetResponse : Type 0 where
  pub topic : Text
  pub partition : ℤ
  pub error : ℤ
  pub offsets : List ℤ

pub record OffsetCommitResponse : Type 0 where
  pub topic : Text
  pub partition : ℤ
  pub error : ℤ

pub record OffsetFetchResponse : Type 0 where
  pub topic : Text
  pub partition : ℤ
  pub offset : ℤ
  pub metadata : Option Bytes
  pub error : ℤ

pub record ConsumerMetadataResponse : Type 0 where
  pub error : ℤ
  pub node_id : ℤ
  pub host : Text
  pub port : ℤ

pub record BrokerMetadata : Type 0 where
  pub node_id : ℤ
  pub host : Text
  pub port : ℤ

pub record PartitionMetadata : Type 0 where
  pub topic : Text
  pub partition : ℤ
  pub partition_error_code : ℤ
  pub leader : ℤ
  pub replicas : List ℤ
  pub isr : List ℤ

pub record TopicMetadata : Type 0 where
  pub topic : Text
  pub topic_error_code : ℤ
  pub partition_metadata : List (ℤ × PartitionMetadata)

-- The requests and responses of consumer groups.
pub record JoinGroupRequestProtocol : Type 0 where
  pub protocol_name : Text
  pub protocol_metadata : Option Bytes

pub record JoinGroupProtocolMetadata : Type 0 where
  pub version : ℤ
  pub subscriptions : List Text
  pub user_data : Option Bytes

pub record JoinGroupRequest : Type 0 where
  pub group : Text
  pub session_timeout : ℤ
  pub member_id : Text
  pub protocol_type : Text
  pub group_protocols : List JoinGroupRequestProtocol

pub record JoinGroupResponseMember : Type 0 where
  pub member_id : Text
  pub member_metadata : Option Bytes

pub record JoinGroupResponse : Type 0 where
  pub error : ℤ
  pub generation_id : ℤ
  pub group_protocol : Text
  pub leader_id : Text
  pub member_id : Text
  pub members : List JoinGroupResponseMember

pub record SyncGroupRequestMember : Type 0 where
  pub member_id : Text
  pub member_metadata : Option Bytes

pub record SyncGroupRequest : Type 0 where
  pub group : Text
  pub generation_id : ℤ
  pub member_id : Text
  pub group_assignment : List SyncGroupRequestMember

pub record SyncGroupMemberAssignment : Type 0 where
  pub version : ℤ
  pub assignments : List (Text × List ℤ)
  pub user_data : Option Bytes

pub record SyncGroupResponse : Type 0 where
  pub error : ℤ
  pub member_assignment : Option Bytes

pub record HeartbeatRequest : Type 0 where
  pub group : Text
  pub generation_id : ℤ
  pub member_id : Text

pub record LeaveGroupRequest : Type 0 where
  pub group : Text
  pub member_id : Text
