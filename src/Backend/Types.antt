-- ===== src/Backend/Types.antt =====
-- backend/pkg/model and backend/proto: a backend, as it is stored and as it is answered.
use multi_cloud.Common.{Text}

pub record Backend : Type 0 where
  pub id : Text
  pub tenant_id : Text
  pub user_id : Text
  pub name : Text
  pub type : Text
  pub region : Text
  pub endpoint : Text
  pub bucket_name : Text
  pub access : Text
  pub security : Text

pub record BackendDetail : Type 0 where
  pub id : Text
  pub tenant_id : Text
  pub user_id : Text
  pub name : Text
  pub type : Text
  pub region : Text
  pub endpoint : Text
  pub bucket_name : Text
  pub access : Text
  pub security : Text

pub record TypeDetail : Type 0 where
  pub name : Text
  pub description : Text
