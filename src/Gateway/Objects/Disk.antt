-- ===== src/Gateway/Objects/Disk.antt =====
-- api/pkg/s3, for the tests: the metadata and the contents of objects as maps, with one bucket and one
-- backend.
use multi_cloud.Common.{
  ◌≡◌, ◌∙◌, refl, ap, sym, arith, false, ◌&&◌, Text, codes, text_eq, text_eq_refl, [], ◌∷◌, Option,
  none, some, if◌then◌else◌,
}
use multi_cloud.Common.Actions.{Result, done, failed, panicked, fail}
use multi_cloud.Common.Promises.{done-injective}
use multi_cloud.Backend.Types.{BackendDetail}
use multi_cloud.S3.Types.{Bucket, Object}
use multi_cloud.Gateway.Objects.{Cloud}
use multi_cloud.Gateway.Objects.Laws.{Holdings, CloudLaws}

abbrev pub Kept : Type 0 → Type 0
Kept A = Text → Text → Option A

abbrev pub with_kept : {A : Type 0} → Text → Text → A → Kept A → Kept A
with_kept b k a kept b' k' = if text_eq b b' && text_eq k k' then some a else kept b' k'

pub with_kept_at :
    {A : Type 0} (b k : Text) (a : A) (kept : Kept A) → with_kept b k a kept b k ≡ some a
with_kept_at b k a kept = rw (text_eq_refl b, text_eq_refl k) refl

abbrev pub store : BackendDetail
store = record {
  id = codes "1";
  tenant_id = [];
  user_id = [];
  name = codes "aws";
  type = codes "aws-s3";
  region = [];
  endpoint = [];
  bucket_name = codes "far";
  access = [];
  security = [];
}

abbrev pub near : Bucket
near = record {
  name = codes "near";
  owner = codes "test";
  owner_display_name = codes "test";
  creation_date = 0;
  deleted = false;
  backend = codes "aws";
}

-- The metadata and the contents.
abbrev pub Disk : Type 0
Disk = Kept Object × Kept Text

abbrev pub or_failed : {A : Type 0} → Option A → Result A
or_failed none = failed (codes "not found")
or_failed (some a) = done a

abbrev pub disk : Cloud Disk
disk = record {
  list_buckets = λ id. fail [];
  get_bucket = λ n w. (w, done near);
  create_bucket = λ b. fail [];
  delete_bucket = λ n. fail [];
  list_objects = λ n. fail [];
  create_object = λ o w. ((with_kept o.bucket_name o.object_key o w.0, w.1), done tt);
  get_object = λ b k w. (w, or_failed (w.0 b k));
  delete_object = λ b k. fail [];
  backends_named = λ n w. (w, done (store ∷ []));
  put = λ s body o w. ((w.0, with_kept o.bucket_name o.object_key body w.1), done o);
  get = λ s o from to w. (w, or_failed (w.1 o.bucket_name o.object_key));
  delete = λ s b k. fail [];
  now = λ w. 0;
}

abbrev pub holdings : Disk → Holdings
holdings w = record { meta = w.0; named = λ n. store ∷ []; buckets = λ n. some near }

pub or_failed-done : {A : Type 0} (o : Option A) (a : A) → or_failed o ≡ done a → o ≡ some a
or_failed-done none a h = ground (arith, h)
or_failed-done (some b) a h = ap (some_of b) h
  where
    some_of : {A : Type 0} → A → Result A → Option A
    some_of b (done a) = some a
    some_of b (failed e) = some b
    some_of b panicked = some b

module _ {A : Type 0} {w w' : Disk} {a b : Result A}
    (e : ◌≡◌ {A = Disk × Result A} (w, a) (w', b)) where
  pub same_disk : holdings w' ≡ holdings w
  same_disk = ap (λ p. holdings p.0) (sym e)

abbrev pub disk_laws : CloudLaws disk
disk_laws = record {
  view = holdings;
  named_law = λ name bs w w' e. (done-injective e, same_disk e);
  bucket_law = λ name b w w' e. (ap some (done-injective e), same_disk e);
  object_law = λ b k o w w' e. (or_failed-done (w.0 b k) o (ap (λ p. p.1) e), same_disk e);
  put_law = λ s body o o' w w' e.
      let same : o ≡ o' = done-injective e in
      (
        ap (λ x. x.bucket_name) (sym same),
        ap (λ x. x.object_key) (sym same),
        ap (λ x. x.backend) (sym same),
        refl,
        refl,
      );
  create_law = λ o w w' e. (
    ap (λ p. p.0.0 o.bucket_name o.object_key) (sym e)
        ∙ with_kept_at o.bucket_name o.object_key o w.0,
    refl,
    refl,
  );
}
