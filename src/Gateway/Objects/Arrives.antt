-- ===== src/Gateway/Objects/Arrives.antt =====
-- api/pkg/s3: a download asks the store that the upload went to.
use multi_cloud.Common.{
  ℕ, Bool, true, false, Text, codes, is_empty, [], Option, none, some, some_cancel, if◌then◌else◌,
  ◌≡◌, ◌∙◌, refl, sym, ap, arith,
}
use multi_cloud.Common.Int.{pos}
use multi_cloud.Common.Actions.{Result, done, failed, panicked, Act, return, continue, ◌>>=◌, tried}
use multi_cloud.Common.Promises.{Ensures, bind-Ensures, if-Ensures, done-injective}
use multi_cloud.Backend.Types.{BackendDetail}
use multi_cloud.S3.Types.{Object}
use multi_cloud.Gateway.Routes.{Answer, forbidden, entity, authorized}
use multi_cloud.Gateway.Objects.{
  Cloud, wanted, get_backend_by_name, get_backend_client, put_object, object_put, get_from,
  get_found, object_get, range_of,
}
use multi_cloud.Gateway.Objects.Laws.{
  Holdings, CloudLaws, first_of, tried-Ensures, reply-Ensures, no_entity-Ensures,
}
use multi_cloud.Gateway.Objects.Stores.{
  Found, FoundIn, get_backend_by_name-Found, get_backend_client-FoundIn,
}
use multi_cloud.Gateway.Objects.Placed.{Placed, WasPut, put_object-Places}

module _ {W : Type 0} (bucket key body : Text) (cloud : Cloud W) (laws : CloudLaws cloud) where
  -- The store gave the text for the object of the bucket and the key, in the last call.
  abbrev pub Gave : BackendDetail → Text → W → Type 0
  Gave store got w =
      (p : Object) × (v : W) × (cloud.get store p (pos 0) (pos 0) v ≡ (w, done got))
      × (p.bucket_name ≡ bucket)
      × (p.object_key ≡ key)

  module _ (v : Holdings) (placed : Placed bucket key body cloud v) where
    abbrev object : Object
    object = placed.0

    -- If the call is answered with an entity, that is what the store of the object gave.
    abbrev Gives : (W → Type 0) → Act W (Answer Text) → Type 0
    Gives P act =
        Ensures P act (λ answer w. (got : Text) → answer ≡ entity got → Gave placed.1 got w)

    get_from-Gives :
        (size : ℕ) (client : Option BackendDetail)
        → Gives
            (Found cloud laws v object.backend client)
            (get_from cloud (wanted bucket key size) (pos 0, pos 0) client)
    unfolding get_from
    get_from-Gives size none = no_entity-Ensures 500
    get_from-Gives size (some store) = record {
      ensure = λ w w' answer h p.
          let (same, chosen) = p store refl in
          (reply-Ensures {P = λ u. laws.view u ≡ v} {Q = λ got w. Gave placed.1 got w}
              (cloud.get store (wanted bucket key size) (pos 0) (pos 0))
              (record {
                ensure = λ w1 w2 got call is_v. (
                  wanted bucket key size,
                  w1,
                  ap (λ s. cloud.get s (wanted bucket key size) (pos 0) (pos 0) w1)
                        (some_cancel (sym placed.4 ∙ chosen))
                      ∙ call,
                  refl,
                  refl,
                );
              })).ensure
            w w' answer h same;
    }

    FoundIn-Found :
        (client : Option BackendDetail) (w : W)
        → is_empty object.backend ≡ true
        → FoundIn cloud laws v bucket client w
        → Found cloud laws v object.backend client w
    FoundIn-Found client w absent p store found =
        let (same, b, at, chosen) = p store found in
        let (c, at_c, its_backend) = placed.5 absent in
        let same_b : c ≡ b = some_cancel (sym at_c ∙ at) in
        (
          same,
          ap (λ n. first_of (v.named n)) (sym its_backend ∙ ap (λ d. d.backend) same_b) ∙ chosen,
        )

    store_Found :
        Ensures
          (λ w. laws.view w ≡ v)
          (if is_empty object.backend
            then get_backend_client cloud bucket
            else get_backend_by_name cloud object.backend)
          (Found cloud laws v object.backend)
    store_Found =
        if-Ensures (is_empty object.backend)
          (λ absent. record {
            ensure = λ w w' client h same.
                FoundIn-Found client w' absent
                  ((get_backend_client-FoundIn cloud laws v bucket).ensure w w' client h same);
          })
          (λ given. get_backend_by_name-Found cloud laws v object.backend)

    get_placed :
        Gives (λ w. laws.view w ≡ v) (get_found cloud bucket key (pos 0, pos 0) (some object))
    unfolding get_found
    get_placed =
        bind-Ensures
          (if is_empty object.backend
            then get_backend_client cloud bucket
            else get_backend_by_name cloud object.backend)
          (Found cloud laws v object.backend) store_Found
          (λ client. get_from-Gives object.size client)

    get_found-Gives :
        (o : Option Object)
        → Gives
            (λ w. (p : Object) → o ≡ some p → (laws.view w ≡ v) × (v.meta bucket key ≡ some p))
            (get_found cloud bucket key (pos 0, pos 0) o)
    unfolding get_found
    get_found-Gives none = no_entity-Ensures 500
    get_found-Gives (some o) = record {
      ensure = λ w w' answer h p.
          let (same, at) = p o refl in
          get_placed.ensure w w' answer
            (ap (λ x. get_found cloud bucket key (pos 0, pos 0) (some x) w)
                (some_cancel (sym placed.2 ∙ at))
              ∙ h)
            same;
    }

    object_get-Gives : Gives (λ w. laws.view w ≡ v) (object_get cloud bucket key [])
    unfolding object_get range_of ◌>>=◌
    object_get-Gives = record {
      ensure = λ w w' answer h same.
          (bind-Ensures (tried (cloud.get_object bucket key))
              (λ o w. (p : Object) → o ≡ some p → (laws.view w ≡ v) × (v.meta bucket key ≡ some p))
              (tried-Ensures (cloud.get_object bucket key) (record {
                ensure = λ w1 w2 o call is_v.
                    let (at, kept) = laws.object_law bucket key o w1 w2 call in
                    (kept ∙ is_v, ap (λ u. u.meta bucket key) (sym is_v) ∙ at);
              }))
              (λ o. get_found-Gives o)).ensure
            w w' answer h same;
    }

module _ {W A : Type 0} where
  -- A handler that is answered with an entity has been permitted and run.
  permitted_entity :
      (call : Act W (Answer A)) (o : W × Result Bool) (w' : W) (a : A)
      → continue (λ ok. if ok then call else return forbidden) o ≡ (w', done (entity a))
      → (w : W) × (call w ≡ (w', done (entity a)))
  permitted_entity call (w, done true) w' a h = (w, h)
  permitted_entity call (w, done false) w' a h = ground (arith, done-injective h)
  permitted_entity call (w, failed e) w' a h = ground (arith, h)
  permitted_entity call (w, panicked) w' a h = ground (arith, h)

module _ {W : Type 0} (cloud : Cloud W) (laws : CloudLaws cloud) where
  -- If the services keep their promises, and the upload of an object and a download of the whole of it
  -- right after that are both answered without an error, then there is one store that the body of the
  -- upload was put into under the bucket and the key, and that gave the answer of the download for the
  -- same bucket and key, whether the upload named a backend or left it to the bucket. What a store gives
  -- for what was put is left to it.
  pub object_put-object_get :
      (allowed : Text → Act W Bool) (bucket key content_length backend_name body got : Text)
      (w w' w2 : W)
      → object_put cloud allowed bucket key content_length backend_name body w
        ≡ (w', done (entity tt))
      → object_get cloud bucket key [] w' ≡ (w2, done (entity got))
      → (store : BackendDetail) × WasPut bucket key body cloud store
        × Gave bucket key body cloud laws store got w2
  unfolding object_put authorized ◌>>=◌
  object_put-object_get allowed bucket key content_length backend_name body got w w' w2 up down =
      let (w1, run) =
        permitted_entity (put_object cloud bucket key content_length backend_name body)
          (allowed (codes "object:put") w) w' tt up in
      let placed =
        (put_object-Places bucket key body cloud laws (laws.view w1) content_length
            backend_name).ensure
          w1 w' (entity tt) run refl tt refl in
      (
        placed.1,
        placed.3,
        (object_get-Gives bucket key body cloud laws (laws.view w') placed).ensure w' w2
            (entity got) down refl got refl,
      )
