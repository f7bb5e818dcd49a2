-- ===== src/DataContract/Types.antt =====
-- The records of control_plane/src/data_contract.rs about commits and checkpoints. `V` is the type of
-- JSON values, serde_json's `Value`, which this part of the program only stores.
use powdrr_engine.Common.{ℕ, String, Bool, Option, List}
use powdrr_engine.Common.Int.{ℤ}
use powdrr_engine.Common.Dict.{Dict}
use powdrr_engine.DataContract.Schema.{PowdrrSchema}
use powdrr_engine.DataContract.FileSet.{FileSetPayload}

pub record SpeedboatSegmentFile : Type 0 where
  pub segment_id : String
  pub file_path : String
  pub size : ℕ

pub record SpeedboatCommitTableInfo : Type 0 where
  pub commit_type : String
  pub table_name : String
  pub segments : List SpeedboatSegmentFile
  pub files : List String
  pub sizes : List ℕ
  pub schema : Option PowdrrSchema

pub record SpeedboatCommit : Type 0 where
  pub type_files : List SpeedboatCommitTableInfo
  pub compaction : Option String

pub record IcebergColumnStats (V : Type 0) : Type 0 where
  pub field_id : ℤ
  pub field_name : String
  pub null_count : Option ℕ
  pub lower_bound : Option V
  pub upper_bound : Option V

pub record IcebergPartitionField : Type 0 where
  pub source_field_id : ℤ
  pub source_field_name : String
  pub field_id : ℤ
  pub field_name : String
  pub transform : String

pub record IcebergPartitionValue (V : Type 0) : Type 0 where
  pub source_field_name : String
  pub field_name : String
  pub transform : String
  pub value : Option V

pub record IcebergSortField : Type 0 where
  pub source_field_id : ℤ
  pub source_field_name : String
  pub transform : String
  pub descending : Bool
  pub nulls_first : Bool

pub record IcebergAccessArtifact : Type 0 where
  pub name : String
  pub kind : String
  pub fields : List String
  pub exact : Bool
  pub supports_eq : Bool
  pub supports_range : Bool
  pub supports_order : Bool

pub record IcebergRowGroupStats (V : Type 0) : Type 0 where
  pub row_group_index : ℕ
  pub record_count : Option ℕ
  pub compressed_bytes : ℕ
  pub page_index_present : Bool
  pub bloom_filter_present : Bool
  pub columns : List (IcebergColumnStats V)

pub record IcebergFileStats (V : Type 0) : Type 0 where
  pub file_path : String
  pub record_count : Option ℕ
  pub columns : List (IcebergColumnStats V)
  pub partition_values : List (IcebergPartitionValue V)
  pub row_groups : List (IcebergRowGroupStats V)

pub record IcebergMetadata (V : Type 0) : Type 0 where
  pub table_schema : PowdrrSchema
  pub snapshot_id : Option String
  pub files : FileSetPayload
  pub partition_spec : List IcebergPartitionField
  pub sort_order : List IcebergSortField
  pub column_names : List String
  pub column_stats : List (String × String)
  pub access_artifacts : List IcebergAccessArtifact
  pub file_stats : List (IcebergFileStats V)

pub record IcebergCommit (V : Type 0) : Type 0 where
  pub metadata : IcebergMetadata V
  pub deletes_table_info : Option SpeedboatCommitTableInfo
  pub compactions : List String

pub record SpeedboatMetadata : Type 0 where
  pub files : FileSetPayload

pub record DeletesMetadata : Type 0 where
  pub files : List String

pub record ExtensionFile : Type 0 where
  pub suffix : String
  pub location : String

abbrev pub ExtensionFileMetadata : Type 0
ExtensionFileMetadata = Dict String (List ExtensionFile)

pub record ExtensionCommit : Type 0 where
  pub id : String
  pub extension : String
  pub files : ExtensionFileMetadata

pub record CompactionCommit : Type 0 where
  pub removed_speedboat_files : List String
  pub removed_delete_files : List String
  pub parquet_file_name : String
  pub compaction_id : String
  pub checkpoint_id_to_replace : String
  pub checkpoints_to_delete : List String

pub record CleanupCommit : Type 0 where
  pub id : String
  pub table_name : String

pub record CheckpointDescriptor : Type 0 where
  pub table_name : String
  pub checkpoint_id : String
  pub original_checkpoint_id : Option String

pub record TableMetadataCheckpoint (V : Type 0) : Type 0 where
  pub table_name : String
  pub original_checkpoint_id : Option String
  pub checkpoint_id : String
  pub iceberg_metadata : Option (IcebergMetadata V)
  pub speedboat_metadata : Option SpeedboatMetadata
  pub deletes_metadata : Option DeletesMetadata
  pub extension_metadata : Dict String ExtensionFileMetadata
  pub schema : PowdrrSchema
