-- ===== src/Strategies/Store/Marked.antt =====
-- strategy_store.py: sequences of markers, in both stores.
use china_a_share.Prelude.{◌≡◌, Bool, ap, none, Text, List, [], ◌∷◌, Result, ok, raised}
use china_a_share.Strategies.Models.{SignalDirection, is_some}
use china_a_share.Strategies.Store.{
  Notification, is_marked, mark_notification_sent, is_notification_sent,
}
use china_a_share.Strategies.Store.Names.{marker_name}
use china_a_share.Strategies.Store.Cloud.{Bucket, cloud_mark_sent, cloud_is_sent}
use china_a_share.Strategies.Store.Refinement.{IsBucket}
use china_a_share.Strategies.Store.Marks.{
  IsMarked, IsMarkSimulated, cloud_mark_sent-mark_notification_sent,
  cloud_is_sent-is_notification_sent,
}

-- A call that marks a notification, with the text that the bucket is given.
pub record Marking : Type 0 where
  pub content : Text
  pub strategy_id : Text
  pub stock_code : Text
  pub signal_date : Text
  pub direction : SignalDirection

-- The state after a call; one that raises leaves the state before it.
abbrev pub state_after : {X : Type 0} → Result (X × Bool) → X → X
state_after (ok (after, answer)) before = after
state_after (raised e) before = before

abbrev pub marked_memory : Marking → List Notification → List Notification
marked_memory m sent =
    state_after (mark_notification_sent m.strategy_id m.stock_code m.signal_date m.direction sent)
      sent

unfoldable pub mark_memory : List Marking → List Notification → List Notification
mark_memory [] sent = sent
mark_memory (m ∷ ms) sent = mark_memory ms (marked_memory m sent)

module _ {B : Type 0} (bucket : Bucket B) where
  abbrev pub marked_cloud : Marking → B → B
  marked_cloud m b =
      state_after
        (cloud_mark_sent bucket m.content m.strategy_id m.stock_code m.signal_date m.direction b) b

  unfoldable pub mark_cloud : List Marking → B → B
  mark_cloud [] b = b
  mark_cloud (m ∷ ms) b = mark_cloud ms (marked_cloud m b)

  state_after-IsMarked :
      (x : Result (List Notification × Bool)) (y : Result (B × Bool)) (sent : List Notification)
      (b : B)
      → IsMarked bucket sent b
      → IsMarkSimulated bucket x y
      → IsMarked bucket (state_after x sent) (state_after y b)
  state_after-IsMarked (ok (sent', p)) (ok (b', q)) sent b r (h, same) = h
  state_after-IsMarked (raised e) (raised f) sent b r h = r
  state_after-IsMarked (ok x) (raised f) sent b r h = absurd h
  state_after-IsMarked (raised e) (ok y) sent b r h = absurd h

  module _ (laws : IsBucket bucket) where
    mark_cloud-IsMarked :
        (ms : List Marking) (sent : List Notification) (b : B)
        → IsMarked bucket sent b
        → IsMarked bucket (mark_memory ms sent) (mark_cloud ms b)
    unfolding mark_memory mark_cloud
    mark_cloud-IsMarked [] sent b r = r
    mark_cloud-IsMarked (m ∷ ms) sent b r =
        mark_cloud-IsMarked ms (marked_memory m sent) (marked_cloud m b) (
          state_after-IsMarked _ _ sent b r (
            cloud_mark_sent-mark_notification_sent bucket laws m.content m.strategy_id m.stock_code
              m.signal_date m.direction sent b r))

    -- With a bucket whose calls do what they promise and that is empty at first, after any sequence
    -- of calls that mark notifications, some of which may raise, the store of the bucket and the
    -- store in memory answer alike, or raise alike, whether any notification was sent.
    pub mark_cloud-mark_memory :
        (ms : List Marking) (b : B) (s c d : Text) (k : SignalDirection)
        → ((name : Text) → bucket.download name b ≡ none)
        → cloud_is_sent bucket s c d k (mark_cloud ms b)
          ≡ is_notification_sent s c d k (mark_memory ms [])
    unfolding is_marked
    mark_cloud-mark_memory ms b s c d k empty =
        cloud_is_sent-is_notification_sent bucket laws s c d k (mark_memory ms []) (mark_cloud ms b)
          (mark_cloud-IsMarked ms [] b
            (record { same = λ s' c' d' k' v. ap is_some (empty (marker_name s' c' d' k')) }))
