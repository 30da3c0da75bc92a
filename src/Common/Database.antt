-- ===== src/Common/Database.antt =====
-- What a collection of mgo answers, as the drivers of the services tell its errors apart.
use multi_cloud.Common.Texts.{Text}

pub data Reply (A : Type 0) : Type 0 where
  found : A → Reply A
  missing : Reply A
  broken : Reply A

pub data Write : Type 0 where
  written : Write
  not_found : Write
  duplicate : Text → Write
  write_error : Text → Write
