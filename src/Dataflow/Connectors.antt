-- ===== src/Dataflow/Connectors.antt =====
-- dataflow/pkg/plan/plan.go: the test of a plan's connectors.
pub mod Valid
use multi_cloud.Common.{
  ◌&&◌, ℕ, ◌+◌, ◌/◌, ◌%◌, ◌==◌, Bool, true, false, Text, codes, text_eq, List, [], ◌∷◌,
  if◌then◌else◌,
}
use multi_cloud.Datamover.Types.{
  StorType, opensds, aws_s3, azure_blob, hw_obs, ceph_s3, hw_fusionstorage, hw_fusioncloud,
  other_type, Kv, Connector,
}

-- `flag | bit` for a bit, a power of two.
unfoldable pub set_bit : ℕ → ℕ → ℕ
set_bit flag bit = if flag / bit % 2 == 1 then flag else flag + bit

unfoldable pub set_flag : Text → ℕ → ℕ
unfolding set_bit
set_flag key flag =
    if text_eq key (codes "region")
    then set_bit flag 1
    else if text_eq key (codes "endpoint")
    then set_bit flag 2
    else if text_eq key (codes "bucketname")
    then set_bit flag 4
    else if text_eq key (codes "access")
    then set_bit flag 8
    else if text_eq key (codes "security")
    then set_bit flag 16
    else flag

-- The loop over the configuration.
unfoldable pub config_flag : List Kv → ℕ → ℕ
unfolding set_flag
config_flag [] flag = flag
config_flag (kv ∷ cfg) flag = config_flag cfg (set_flag kv.key flag)

unfoldable pub valid_by : StorType → List Kv → Bool
unfolding config_flag
valid_by opensds cfg = true
valid_by ceph_s3 cfg = config_flag cfg 1 == 31
valid_by _ cfg = config_flag cfg 0 == 31

-- `checkConnValidation`; true is no error.
unfoldable pub check_conn_validation : Connector → Bool
unfolding valid_by
check_conn_validation conn = valid_by conn.type conn.conn_config

unfoldable pub is_opensds : StorType → Bool
is_opensds opensds = true
is_opensds _ = false

unfoldable pub is_equal : Connector → Connector → Bool
unfolding is_opensds
is_equal src dest =
    is_opensds src.type && is_opensds dest.type && text_eq src.bucket_name dest.bucket_name
