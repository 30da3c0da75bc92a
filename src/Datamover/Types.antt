-- ===== src/Datamover/Types.antt =====
-- The data of the data mover: datamover/pkg/utils/data_type.go, the messages of datamover/proto and
-- s3/proto it reads, and the job of dataflow/pkg/model/dataflow_type.go.
use multi_cloud.Common.{ℕ, Text, List}

-- A storage type as the switches tell the constants of dataflow/pkg/model apart.
pub data StorType : Type 0 where
  opensds : StorType
  aws_s3 : StorType
  azure_blob : StorType
  hw_obs : StorType
  ceph_s3 : StorType
  hw_fusionstorage : StorType
  hw_fusioncloud : StorType
  other_type : Text → StorType

pub record LocationInfo : Type 0 where
  pub stor_type : StorType
  pub region : Text
  pub end_point : Text
  pub bucket_name : Text
  pub vir_bucket : Text
  pub access : Text
  pub security : Text
  pub bakend_name : Text

-- `osdss3.Object`, the fields the mover reads or writes. The storage reports no negative size.
pub record Object : Type 0 where
  pub object_key : Text
  pub bucket_name : Text
  pub size : ℕ
  pub backend : Text
  pub last_modified : Text

-- `backend.Backend`, the fields a location takes.
pub record Backend : Type 0 where
  pub type : StorType
  pub region : Text
  pub endpoint : Text
  pub bucket_name : Text
  pub access : Text
  pub security : Text

-- `pb.KV` and `pb.Connector`.
pub record Kv : Type 0 where
  pub key : Text
  pub value : Text

pub record Connector : Type 0 where
  pub type : StorType
  pub bucket_name : Text
  pub conn_config : List Kv

-- A `[]byte`.
abbrev pub Buf : Type 0
Buf = List ℕ
