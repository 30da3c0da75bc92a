-- ===== src/Gateway/Objects/Placed.antt =====
-- api/pkg/s3/objectput.go: where an object is once it has been uploaded.
use multi_cloud.Common.{
  ℕ, true, Text, is_empty, Option, none, some, some_cancel, ◌≡◌, ◌∙◌, refl, sym, ap, arith,
}
use multi_cloud.Common.Actions.{Act, done, tried}
use multi_cloud.Common.Promises.{Ensures, bind-Ensures, panic-Ensures, if-Ensures}
use multi_cloud.Backend.Types.{BackendDetail}
use multi_cloud.S3.Types.{Bucket, Object}
use multi_cloud.Gateway.Routes.{Answer, entity}
use multi_cloud.Gateway.Objects.{
  Cloud, uploaded, get_backend_by_name, get_backend_client, after_put, put_to, put_in, put_object,
  size_of, int_value,
}
use multi_cloud.Gateway.Objects.Laws.{
  Holdings, CloudLaws, first_of, Chosen, InBucket, tried-Ensures, reply-Ensures, no_entity-Ensures,
}
use multi_cloud.Gateway.Objects.Stores.{
  Found, Bucketed, get_backend_by_name-Found, tried_bucket, get_backend_client-FoundIn,
}

module _ {W : Type 0} (bucket key body : Text) (cloud : Cloud W) where
  -- The body has been put into the store under the bucket and the key, without an error.
  abbrev pub WasPut : BackendDetail → Type 0
  WasPut store =
      (p p' : Object) × (v v' : W) × (cloud.put store body p v ≡ (v', done p'))
      × (p.bucket_name ≡ bucket)
      × (p.object_key ≡ key)

  -- The object is in the metadata, and the body has been put into the store of its backend.
  abbrev pub Placed : Holdings → Type 0
  Placed v =
      (o : Object) × (store : BackendDetail) × (v.meta bucket key ≡ some o)
      × WasPut store
      × Chosen v o.backend store
      × (is_empty o.backend ≡ true → InBucket v bucket o.backend)

  module _ (laws : CloudLaws cloud) where
    -- If the call is answered with an entity, the object is in its place.
    abbrev pub Places : (W → Type 0) → Act W (Answer (Unit {0})) → Type 0
    Places P act =
        Ensures P act (λ answer w. (u : Unit {0}) → answer ≡ entity u → Placed (laws.view w))

    module _ (v : Holdings) (name : Text) (store : BackendDetail) (chosen : Chosen v name store)
        (in_bucket : is_empty name ≡ true → InBucket v bucket name) where
      abbrev Put : Object → W → Type 0
      Put o w =
          WasPut store
          × (o.bucket_name ≡ bucket)
          × (o.object_key ≡ key)
          × (o.backend ≡ name)
          × ((laws.view w).named ≡ v.named)
          × ((laws.view w).buckets ≡ v.buckets)

      create_object-Placed :
          (o : Object)
          → Ensures
              (λ w. (p : Object) → some o ≡ some p → Put p w)
              (cloud.create_object o)
              (λ u w. Placed (laws.view w))
      create_object-Placed o = record {
        ensure = λ w w' u h p.
            let (was_put, its_bucket, its_key, its_backend, names, buckets) = p o refl in
            let (meta, names', buckets') = laws.create_law o w w' h in
            (
              o,
              store,
              (λ i. (laws.view w').meta (sym its_bucket i) (sym its_key i)) ∙ meta,
              was_put,
              (λ i. first_of ((names' ∙ names) i (its_backend i))) ∙ chosen,
              λ e.
                  let (b, at, same) = in_bucket (ap is_empty (sym its_backend) ∙ e) in
                  (b, ap (λ f. f bucket) (buckets' ∙ buckets) ∙ at, same ∙ sym its_backend),
            );
      }

      after_put-Places :
          (o : Option Object)
          → Places (λ w. (p : Object) → o ≡ some p → Put p w) (after_put cloud o)
      unfolding after_put
      after_put-Places none = no_entity-Ensures 500
      after_put-Places (some o) = reply-Ensures (cloud.create_object o) (create_object-Placed o)

      put-Put :
          (size : ℕ)
          → Ensures
              (λ w. laws.view w ≡ v)
              (cloud.put store body (uploaded bucket key name size))
              Put
      put-Put size = record {
        ensure = λ w w' o h same.
            let (its_bucket, its_key, its_backend, names, buckets) =
              laws.put_law store body (uploaded bucket key name size) o w w' h in
            (
              (uploaded bucket key name size, o, w, w', h, refl, refl),
              its_bucket,
              its_key,
              its_backend,
              names ∙ ap (λ u. u.named) same,
              buckets ∙ ap (λ u. u.buckets) same,
            );
      }

    put_to-Places :
        (v : Holdings) (name : Text) (size : ℕ) (client : Option BackendDetail)
        → (is_empty name ≡ true → InBucket v bucket name)
        → Places
            (Found cloud laws v name client)
            (put_to cloud body (uploaded bucket key name size) client)
    unfolding put_to
    put_to-Places v name size none in_bucket = no_entity-Ensures 500
    put_to-Places v name size (some store) in_bucket = record {
      ensure = λ w w' answer h p.
          let (same, chosen) = p store refl in
          (bind-Ensures (tried (cloud.put store body (uploaded bucket key name size))) _
              (tried-Ensures (cloud.put store body (uploaded bucket key name size))
                (put-Put v name store chosen in_bucket size))
              (λ o. after_put-Places v name store chosen in_bucket o)).ensure
            w w' answer h same;
    }

    put_in-Places :
        (v : Holdings) (size : ℕ) (o : Option Bucket)
        → Places (Bucketed cloud laws v bucket o) (put_in cloud bucket key body size o)
    unfolding put_in
    put_in-Places v size none = panic-Ensures
    put_in-Places v size (some b) = record {
      ensure = λ w w' answer h p.
          let (same, at) = p b refl in
          (bind-Ensures (get_backend_client cloud bucket) _
              (get_backend_client-FoundIn cloud laws v bucket)
              (λ client. record {
                ensure = λ w1 w2 a call q.
                    (put_to-Places v b.backend size client (λ e. (b, at, refl))).ensure w1 w2 a call
                      (λ store found.
                        let (kept, c, at_c, chosen) = q store found in
                        let same_b : c ≡ b = some_cancel (sym at_c ∙ at) in
                        (kept, ap (λ d. first_of (v.named d.backend)) (sym same_b) ∙ chosen));
              })).ensure
            w w' answer h same;
    }

    pub put_object-Places :
        (v : Holdings) (content_length backend_name : Text)
        → Places
            (λ w. laws.view w ≡ v)
            (put_object cloud bucket key content_length backend_name body)
    unfolding put_object
    put_object-Places v content_length backend_name =
        if-Ensures (is_empty backend_name)
          (λ absent.
            bind-Ensures (tried (cloud.get_bucket bucket)) _ (tried_bucket cloud laws v bucket)
              (λ o. put_in-Places v (size_of (int_value content_length)) o))
          (λ given.
            bind-Ensures (get_backend_by_name cloud backend_name) _
              (get_backend_by_name-Found cloud laws v backend_name)
              (λ client.
                put_to-Places v backend_name (size_of (int_value content_length)) client
                  (λ e. absurd (ground (arith, given, e)))))
