-- ===== src/Strategies/Store/Marks.antt =====
-- strategy_store.py: the markers of the notifications that were sent.
use china_a_share.Prelude.{
  ◌≡◌, refl, sym, ap, ◌∙◌, inl, inr, Bool, true, false, ◌||◌, Option, none, some, Text, text,
  text_beq_iff, ==_ne, ◌==◌, text_eq, List, ◌∷◌, Result, ok, raised, ◌>>=◌, if◌then◌else◌,
  Bool-cases,
}
use china_a_share.Strategies.Models.{SignalDirection, is_some}
use china_a_share.Strategies.Store.{
  Notification, notification, notification_eq, is_marked, direction_text, validate_notification,
  mark_notification_sent, is_notification_sent,
}
use china_a_share.Strategies.Store.Names.{
  has_slash, validate_identifier-slash, slash_inj, append_inj_left, append_inj_right, json_suffix,
  marker_name,
}
use china_a_share.Strategies.Store.Cloud.{Bucket, created, cloud_mark_sent, cloud_is_sent}
use china_a_share.Strategies.Store.Refinement.{IsBucket, bind-cong}

check-ok :
    {Y : Type 0} (c : Result (Unit {0})) (y : Result Y) (v : Y)
    → (c >>= λ _. y) ≡ ok v
    → (c ≡ ok tt) × (y ≡ ok v)
check-ok (ok u) y v h = (refl, h)
check-ok (raised e) y v h = absurd (cc)

-- The parts of a notification have no slash.
record IsPlain (strategy_id stock_code signal_date : Text) : Type 0 where
  strategy : has_slash strategy_id ≡ false
  stock : has_slash stock_code ≡ false
  date : has_slash signal_date ≡ false

validate_notification-IsPlain :
    (strategy_id stock_code signal_date : Text) (direction : SignalDirection)
    → validate_notification strategy_id stock_code signal_date direction ≡ ok tt
    → IsPlain strategy_id stock_code signal_date
unfolding validate_notification
validate_notification-IsPlain strategy_id stock_code signal_date direction h =
    let (p, hp) = check-ok _ _ _ h in
    let (q, hq) = check-ok _ _ _ hp in
    let (r, hr) = check-ok _ _ _ hq in
    record {
      strategy = validate_identifier-slash strategy_id p;
      stock = validate_identifier-slash stock_code q;
      date = validate_identifier-slash signal_date r;
    }

marker_name_inj :
    (s c d s' c' d' : Text) (k k' : SignalDirection)
    → IsPlain s c d
    → IsPlain s' c' d'
    → marker_name s c d k ≡ marker_name s' c' d' k'
    → notification s c d k ≡ notification s' c' d' k'
unfolding marker_name
marker_name_inj s c d s' c' d' k k' p q h =
    let tail = append_inj_left (text "strategies/notifications/") _ _ h in
    let (first, tail) = slash_inj s s' _ _ p.strategy q.strategy tail in
    let (second, tail) = slash_inj c c' _ _ p.stock q.stock tail in
    let (third, tail) = slash_inj d d' _ _ p.date q.date tail in
    let last = append_inj_right (direction_text k) (direction_text k') json_suffix tail in cc

marker_name-text :
    (s c d s' c' d' : Text) (k k' : SignalDirection)
    → s ≡ s'
    → c ≡ c'
    → d ≡ d'
    → direction_text k ≡ direction_text k'
    → marker_name s c d k ≡ marker_name s' c' d' k'
unfolding marker_name
marker_name-text s c d s' c' d' k k' p q r t = cc

marker_name-beq :
    (s c d s' c' d' : Text) (k k' : SignalDirection)
    → IsPlain s c d
    → IsPlain s' c' d'
    → (marker_name s c d k == marker_name s' c' d' k')
      ≡ notification_eq.beq (notification s c d k) (notification s' c' d' k')
marker_name-beq s c d s' c' d' k k' p q =
    elim (Bool-cases (notification_eq.beq (notification s c d k) (notification s' c' d' k'))) [
      | inl e ↦
          let same = (notification_eq.beq_iff _ _).0 e in
          let strategy = ap (λ n. n.0.0) same in
          let stock = ap (λ n. n.0.1) same in
          let date = ap (λ n. n.1.0) same in
          let last = ap (λ n. n.1.1) same in
          (text_beq_iff _ _).1 (marker_name-text s c d s' c' d' k k' strategy stock date last)
          ∙ sym e
      | inr e ↦
          ==_ne _ _ (λ names.
            let same = marker_name_inj s c d s' c' d' k k' p q names in
            let hit = (notification_eq.beq_iff _ _).1 same in cc)
          ∙ sym e
    ]

is_some-if :
    (t : Bool) (x : Text) (v : Option Text) → is_some (if t then some x else v) ≡ (t || is_some v)
is_some-if true x v = refl
is_some-if false x v = refl

module _ {B : Type 0} (bucket : Bucket B) where
  -- The bucket has the marker of each notification that the set has.
  pub record IsMarked (sent : List Notification) (b : B) : Type 0 where
    pub same :
        (s c d : Text) (k : SignalDirection)
        → validate_notification s c d k ≡ ok tt
        → is_some (bucket.download (marker_name s c d k) b) ≡ is_marked (notification s c d k) sent

  -- Both raise alike, or both answer alike and go on alike.
  abbrev pub IsMarkSimulated : Result (List Notification × Bool) → Result (B × Bool) → Type 0
  IsMarkSimulated (ok (sent, x)) (ok (b, y)) = IsMarked sent b × (y ≡ x)
  IsMarkSimulated (raised e) (raised f) = e ≡ f
  IsMarkSimulated (ok x) (raised f) = ⊥
  IsMarkSimulated (raised e) (ok y) = ⊥

  IsMarkSimulated-check :
      (c : Result (Unit {0})) (x : Result (List Notification × Bool)) (y : Result (B × Bool))
      → (c ≡ ok tt → IsMarkSimulated x y)
      → IsMarkSimulated (c >>= λ _. x) (c >>= λ _. y)
  IsMarkSimulated-check (ok u) x y h = h refl
  IsMarkSimulated-check (raised e) x y h = refl

  module _ (laws : IsBucket bucket) where
    upload-IsMarked :
        (content s c d : Text) (k : SignalDirection) (sent : List Notification) (b : B)
        → validate_notification s c d k ≡ ok tt
        → IsMarked sent b
        → IsMarked (notification s c d k ∷ sent) (bucket.upload (marker_name s c d k) content b)
    unfolding is_marked
    upload-IsMarked content s c d k sent b v r = record {
      same = λ s' c' d' k' v'.
          let names =
            marker_name-beq s c d s' c' d' k k' (validate_notification-IsPlain s c d k v)
              (validate_notification-IsPlain s' c' d' k' v') in
          rw (laws.download-upload, names, is_some-if, r.same s' c' d' k' v');
    }

    created-IsMarked :
        (found : Option Text) (content s c d : Text) (k : SignalDirection)
        (sent : List Notification) (b : B)
        → validate_notification s c d k ≡ ok tt
        → IsMarked sent b
        → bucket.download (marker_name s c d k) b ≡ found
        → IsMarked
            (if is_marked (notification s c d k) sent then sent else notification s c d k ∷ sent)
            (created b (bucket.create_only (marker_name s c d k) content b))
    unfolding created
    created-IsMarked none content s c d k sent b v r e =
        let absent : is_marked (notification s c d k) sent ≡ false =
          sym (r.same s c d k v) ∙ ap is_some e in
        let made = laws.create_only-absent (marker_name s c d k) content b e in
        rw (absent, made) (upload-IsMarked content s c d k sent b v r)
    created-IsMarked (some x) content s c d k sent b v r e =
        let marked : is_marked (notification s c d k) sent ≡ true =
          sym (r.same s c d k v) ∙ ap is_some e in
        let kept = laws.create_only-present (marker_name s c d k) content x b e in
        rw (marked, kept) r

    -- With a bucket whose calls do what they promise, and whose objects stand for the set of
    -- notifications in memory, marking a notification raises in the store of the bucket just what
    -- it raises in memory, or else answers alike and leaves objects that stand for the new set.
    pub cloud_mark_sent-mark_notification_sent :
        (content s c d : Text) (k : SignalDirection) (sent : List Notification) (b : B)
        → IsMarked sent b
        → IsMarkSimulated
            (mark_notification_sent s c d k sent)
            (cloud_mark_sent bucket content s c d k b)
    unfolding mark_notification_sent cloud_mark_sent
    cloud_mark_sent-mark_notification_sent content s c d k sent b r =
        IsMarkSimulated-check (validate_notification s c d k) _ _ λ v. (
          created-IsMarked (bucket.download (marker_name s c d k) b) content s c d k sent b v r
              refl,
          refl,
        )

    -- With a bucket whose calls do what they promise, and whose objects stand for the set of
    -- notifications in memory, both stores answer alike, or raise alike, whether a notification was
    -- sent.
    pub cloud_is_sent-is_notification_sent :
        (s c d : Text) (k : SignalDirection) (sent : List Notification) (b : B)
        → IsMarked sent b
        → cloud_is_sent bucket s c d k b ≡ is_notification_sent s c d k sent
    unfolding cloud_is_sent is_notification_sent
    cloud_is_sent-is_notification_sent s c d k sent b r =
        bind-cong (validate_notification s c d k) _ _ λ v. ap ok (r.same s c d k v)
