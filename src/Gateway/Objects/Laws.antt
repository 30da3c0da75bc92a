-- ===== src/Gateway/Objects/Laws.antt =====
-- api/pkg/s3: what the services and the stores promise, and what a handler's answer says of its call.
use multi_cloud.Common.{
  ℕ, Text, List, [], ◌∷◌, Option, none, some, some_cancel, ◌≡◌, ◌∙◌, ap, arith,
}
use multi_cloud.Common.Actions.{Result, done, failed, panicked, Act, return, tried, taken}
use multi_cloud.Common.Promises.{Ensures, return-Ensures, done-injective}
use multi_cloud.Backend.Types.{BackendDetail}
use multi_cloud.S3.Types.{Bucket, Object}
use multi_cloud.Gateway.Routes.{Answer, forbidden, error_of, entity, reply, replied}
use multi_cloud.Gateway.Objects.{Cloud, store_of}

-- What the services and the stores hold: the metadata of objects, the backends of a name, and the
-- buckets.
pub record Holdings : Type 0 where
  pub meta : Text → Text → Option Object
  pub named : Text → List BackendDetail
  pub buckets : Text → Option Bucket

-- What the services and the stores promise of the calls that have no error.
pub record CloudLaws {W : Type 0} (cloud : Cloud W) : Type 0 where
  pub view : W → Holdings
  pub named_law :
      (name : Text) (bs : List BackendDetail) (w w' : W)
      → cloud.backends_named name w ≡ (w', done bs)
      → ((view w).named name ≡ bs) × (view w' ≡ view w)
  pub bucket_law :
      (name : Text) (b : Bucket) (w w' : W)
      → cloud.get_bucket name w ≡ (w', done b)
      → ((view w).buckets name ≡ some b) × (view w' ≡ view w)
  pub object_law :
      (bucket key : Text) (o : Object) (w w' : W)
      → cloud.get_object bucket key w ≡ (w', done o)
      → ((view w).meta bucket key ≡ some o) × (view w' ≡ view w)
  pub put_law :
      (store : BackendDetail) (body : Text) (o o' : Object) (w w' : W)
      → cloud.put store body o w ≡ (w', done o')
      → (o'.bucket_name ≡ o.bucket_name)
        × (o'.object_key ≡ o.object_key)
        × (o'.backend ≡ o.backend)
        × ((view w').named ≡ (view w).named)
        × ((view w').buckets ≡ (view w).buckets)
  pub create_law :
      (o : Object) (w w' : W)
      → cloud.create_object o w ≡ (w', done tt)
      → ((view w').meta o.bucket_name o.object_key ≡ some o)
        × ((view w').named ≡ (view w).named)
        × ((view w').buckets ≡ (view w).buckets)

abbrev pub first_of : List BackendDetail → Option BackendDetail
first_of [] = none
first_of (b ∷ bs) = store_of b

-- The store of the backend that has the name.
abbrev pub Chosen : Holdings → Text → BackendDetail → Type 0
Chosen v name store = first_of (v.named name) ≡ some store

-- The bucket names the backend.
abbrev pub InBucket : Holdings → Text → Text → Type 0
InBucket v bucket name = (b : Bucket) × (v.buckets bucket ≡ some b) × (b.backend ≡ name)

module _ {W A : Type 0} where
  taken-some : (o : W × Result A) (w : W) (a : A) → taken o ≡ (w, done (some a)) → o ≡ (w, done a)
  taken-some (w1, done b) w a h =
      λ i. ((ap (λ p. p.0) h) i, done ((some_cancel (done-injective h)) i))
  taken-some (w1, failed e) w a h = ground (arith, done-injective h)
  taken-some (w1, panicked) w a h = ground (arith, h)

  pub tried-Ensures :
      {P : W → Type 0} {Q : A → W → Type 0} (act : Act W A)
      → Ensures P act Q
      → Ensures P (tried act) (λ o w. (a : A) → o ≡ some a → Q a w)
  unfolding tried
  tried-Ensures {P} {Q} act s = record {
    ensure = λ w w' o h p a is_a.
        s.ensure w w' a (taken-some (act w) w' a (h ∙ ap (λ x. (w', done x)) is_a)) p;
  }

  -- An answer that is an entity is that of the call.
  pub replied-entity :
      (o : W × Result A) (w : W) (a : A) → replied o ≡ (w, done (entity a)) → o ≡ (w, done a)
  unfolding replied
  replied-entity (w1, done b) w a h =
      λ i. ((ap (λ p. p.0) h) i, done ((ap (entity_or b) (done-injective h)) i))
    where
      entity_or : A → Answer A → A
      entity_or b (entity c) = c
      entity_or b forbidden = b
      entity_or b (error_of n) = b
  replied-entity (w1, failed e) w a h = ground (arith, done-injective h)
  replied-entity (w1, panicked) w a h = ground (arith, h)

  pub reply-Ensures :
      {P : W → Type 0} {Q : A → W → Type 0} (act : Act W A)
      → Ensures P act Q
      → Ensures P (reply act) (λ answer w. (a : A) → answer ≡ entity a → Q a w)
  unfolding reply
  reply-Ensures {P} {Q} act s = record {
    ensure = λ w w' answer h p a is_a.
        s.ensure w w' a (replied-entity (act w) w' a (h ∙ ap (λ x. (w', done x)) is_a)) p;
  }

  pub no_entity-Ensures :
      {P : W → Type 0} {Q : A → W → Type 0} (n : ℕ)
      → Ensures P (return (error_of n)) (λ answer w. (a : A) → answer ≡ entity a → Q a w)
  no_entity-Ensures {P} {Q} n = return-Ensures (λ w p a h. ground (arith, h))
