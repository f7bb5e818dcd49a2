-- ===== src/Service/Tables.antt =====
-- What the service stores of a table: the table descriptions of control_plane/src/data_contract.rs,
-- and the processing mode of control_plane/src/test_api.rs.
use powdrr_engine.Common.{ℕ, String, Bool, true, false, Option, none, List, unwrap_or}
use powdrr_engine.Common.Dict.{Dict}

pub record ServingAggregateMeasure : Type 0 where
  pub function : String
  pub field : Option String
  pub alias : Option String

pub record ServingAggregateSpec : Type 0 where
  pub group_by : List String
  pub measures : List ServingAggregateMeasure

pub record ServingPattern : Type 0 where
  pub name : String
  pub eq_fields : List String
  pub range_field : Option String
  pub order_field : Option String
  pub descending : Bool
  pub max_limit : Option ℕ
  pub projection : Option (List String)
  pub aggregate : Option ServingAggregateSpec

pub record ServingTableConfig : Type 0 where
  pub patterns : List ServingPattern

pub record SupportKeySchemaConfig : Type 0 where
  pub primary_key : String
  pub range_key : Option String

pub record DynamoDbGlobalSecondaryIndexConfig : Type 0 where
  pub name : String
  pub partition_key : String
  pub sort_key : Option String

pub record DynamoDbLocalSecondaryIndexConfig : Type 0 where
  pub name : String
  pub sort_key : String

pub record SupportDynamoDbTableConfig : Type 0 where
  pub local_secondary_indexes : List DynamoDbLocalSecondaryIndexConfig
  pub global_secondary_indexes : List DynamoDbGlobalSecondaryIndexConfig

pub record SupportRedisTableConfig : Type 0 where
  pub database : ℕ
  pub value_field : String

-- `elasticsearch` holds a struct with no field, so only its presence is kept
pub record SupportTableConfig : Type 0 where
  pub key_schema : SupportKeySchemaConfig
  pub elasticsearch : Bool
  pub dynamodb : Option SupportDynamoDbTableConfig
  pub redis : Option SupportRedisTableConfig

pub record DynamoDbTableConfig : Type 0 where
  pub partition_key : String
  pub sort_key : Option String
  pub local_secondary_indexes : List DynamoDbLocalSecondaryIndexConfig
  pub global_secondary_indexes : List DynamoDbGlobalSecondaryIndexConfig

pub record MongoDbIdConfig : Type 0 where
  pub field : String

pub record MongoDbTableConfig : Type 0 where
  pub enabled : Bool
  pub database : String
  pub collection : String
  pub id : MongoDbIdConfig

pub record RedisTableConfig : Type 0 where
  pub enabled : Bool
  pub database : ℕ
  pub key_field : String
  pub value_field : Option String

pub record CreateTable : Type 0 where
  pub name : String
  pub tags : Dict String String
  pub serving : Option ServingTableConfig
  pub support : Option SupportTableConfig
  pub dynamodb : Option DynamoDbTableConfig
  pub mongodb : Option MongoDbTableConfig
  pub redis : Option RedisTableConfig

pub record TableDescription : Type 0 where
  pub name : String
  pub tags : Dict String String
  pub serving : Option ServingTableConfig
  pub support : Option SupportTableConfig
  pub dynamodb : Option DynamoDbTableConfig
  pub mongodb : Option MongoDbTableConfig
  pub redis : Option RedisTableConfig

unfoldable pub from_create_table : CreateTable → TableDescription
from_create_table t = record {
  name = t.name;
  tags = t.tags;
  serving = t.serving;
  support = t.support;
  dynamodb = t.dynamodb;
  mongodb = t.mongodb;
  redis = t.redis;
}

pub data CompactionMode : Type 0 where
  async : Option ℕ → CompactionMode
  external : String → CompactionMode
  disabled : CompactionMode

abbrev pub default_num_files_threshold : ℕ
default_num_files_threshold = 100

unfoldable pub threshold : CompactionMode → ℕ
threshold (async n) = unwrap_or default_num_files_threshold n
threshold (external _) = default_num_files_threshold
threshold disabled = default_num_files_threshold

pub data StateMode : Type 0 where
  testing ephemeral : StateMode
  testing_dynamo_db : Option String → StateMode
  leaderless : String → StateMode

pub record StorageMode : Type 0 where
  pub rest_endpoint : Option String
  pub s3_endpoint : Option String

pub data CacheMode : Type 0 where
  redis : Option String → CacheMode
  native : CacheMode

pub data ApiMode : Type 0 where
  read_write read_only : ApiMode

pub data PeerMode : Type 0 where
  self_only : PeerMode
  remote : List String → PeerMode

pub data IndexingMode : Type 0 where
  sync async disabled : IndexingMode

pub data PrefetchMode : Type 0 where
  enabled disabled : PrefetchMode

pub record TestProcessingMode : Type 0 where
  pub state_mode : StateMode
  pub storage_mode : StorageMode
  pub cache_mode : CacheMode
  pub api_mode : ApiMode
  pub peer_mode : PeerMode
  pub indexing_mode : IndexingMode
  pub compaction_mode : CompactionMode
  pub prefetch_mode : PrefetchMode

abbrev pub ephemeral_default : TestProcessingMode
ephemeral_default = record {
  state_mode = ephemeral;
  storage_mode = record { rest_endpoint = none; s3_endpoint = none };
  cache_mode = native;
  api_mode = read_write;
  peer_mode = self_only;
  indexing_mode = IndexingMode.sync;
  compaction_mode = CompactionMode.async none;
  prefetch_mode = PrefetchMode.disabled;
}

unfoldable pub is_read_only : ApiMode → Bool
is_read_only read_only = true
is_read_only read_write = false
