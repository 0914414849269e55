-- ===== src/Strategies/Store/Runs.antt =====
-- strategy_store.py: a sequence of calls of the stores. A call that raises leaves its store as it was.
use china_a_share.Prelude.{
  ◌≡◌, refl, sym, ap, Option, none, Text, List, [], ◌∷◌, Result, ok, raised, pair_eq,
}
use china_a_share.Strategies.Store.{Owned, get_owned, put_owned, delete_owned}
use china_a_share.Strategies.Store.Cloud.{Bucket, Codec, cloud_get, cloud_put, cloud_delete}
use china_a_share.Strategies.Store.Refinement.{
  IsBucket, IsCodec, IsRepresented, IsSimulated, cloud_get-get_owned, cloud_put-put_owned,
  cloud_delete-delete_owned,
}

pub data Call (A : Type 0) : Type 0 where
  getting deleting : (id owner : Text) → Call A
  putting : (a : A) → (owner : Text) → Call A

-- What a changing call answers, and the store that it leaves.
abbrev pub settle : {A S : Type 0} → S → Result S → Result (Option A) × S
settle s (ok t) = (ok none, t)
settle s (raised e) = (raised e, s)

module _ {A B : Type 0} (bucket : Bucket B) (codec : Codec A) (owner_of id_of : A → Text)
    (prefix : Text) where
  abbrev pub call_memory : Call A → Owned A → Result (Option A) × Owned A
  call_memory (getting id owner) d = (get_owned id owner d, d)
  call_memory (deleting id owner) d = settle d (delete_owned id owner d)
  call_memory (putting a owner) d = settle d (put_owned owner_of id_of a owner d)

  abbrev pub call_cloud : Call A → B → Result (Option A) × B
  call_cloud (getting id owner) b = (cloud_get bucket codec owner_of id_of prefix id owner b, b)
  call_cloud (deleting id owner) b =
      settle b (cloud_delete bucket codec owner_of id_of prefix id owner b)
  call_cloud (putting a owner) b = settle b (cloud_put bucket codec owner_of id_of prefix a owner b)

  unfoldable pub run_memory : List (Call A) → Owned A → List (Result (Option A))
  run_memory [] d = []
  run_memory (call ∷ calls) d =
      let (answer, rest) = call_memory call d in answer ∷ run_memory calls rest

  unfoldable pub run_cloud : List (Call A) → B → List (Result (Option A))
  run_cloud [] b = []
  run_cloud (call ∷ calls) b =
      let (answer, rest) = call_cloud call b in answer ∷ run_cloud calls rest

  Agree : Result (Option A) × Owned A → Result (Option A) × B → Type 0
  Agree (x, d) (y, b) = (y ≡ x) × IsRepresented bucket codec owner_of id_of prefix d b

  settle-Agree :
      (d : Owned A) (b : B) (x : Result (Owned A)) (y : Result B)
      → IsRepresented bucket codec owner_of id_of prefix d b
      → IsSimulated bucket codec owner_of id_of prefix x y
      → Agree (settle d x) (settle b y)
  unfolding Agree
  settle-Agree d b (ok d') (ok b') r s = (refl, s)
  settle-Agree d b (raised e) (raised f) r s = (ap raised (sym s), r)
  settle-Agree d b (ok d') (raised f) r s = absurd s
  settle-Agree d b (raised e) (ok b') r s = absurd s

  call_cloud-Agree :
      (call : Call A) (d : Owned A) (b : B)
      → IsBucket bucket
      → IsCodec codec
      → IsRepresented bucket codec owner_of id_of prefix d b
      → Agree (call_memory call d) (call_cloud call b)
  unfolding Agree
  call_cloud-Agree (getting id owner) d b laws law r =
      (cloud_get-get_owned bucket codec owner_of id_of prefix laws law id owner d b r, r)
  call_cloud-Agree (deleting id owner) d b laws law r =
      settle-Agree d b _ _ r
        (cloud_delete-delete_owned bucket codec owner_of id_of prefix laws law id owner d b r)
  call_cloud-Agree (putting a owner) d b laws law r =
      settle-Agree d b _ _ r
        (cloud_put-put_owned bucket codec owner_of id_of prefix laws law a owner d b r)

  -- With a bucket whose calls do what they promise and records that load as they were dumped, any
  -- sequence of gets, puts and deletions has the same answers and raises the same exceptions in the
  -- store of a bucket as in the store in memory, if the bucket represents the memory before it.
  pub run_cloud-run_memory :
      (calls : List (Call A)) (d : Owned A) (b : B)
      → IsBucket bucket
      → IsCodec codec
      → IsRepresented bucket codec owner_of id_of prefix d b
      → run_cloud calls b ≡ run_memory calls d
  unfolding run_cloud run_memory Agree
  run_cloud-run_memory [] d b laws law r = refl
  run_cloud-run_memory (call ∷ calls) d b laws law r =
      let (same, next) = call_cloud-Agree call d b laws law r in
      let rest = run_cloud-run_memory calls _ _ laws law next in cc
