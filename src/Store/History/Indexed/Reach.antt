-- ===== src/Store/History/Indexed/Reach.antt =====
-- The histories that sequences of calls lead to.
use etcd_studio.Base.{String, Bool, ◌≡◌, arith, Option, ok}
use etcd_studio.Base.Int.{ℤ}
use etcd_studio.Base.Base64.{Bytes}
use etcd_studio.Store.Types.{ValueSnapshot}
use etcd_studio.Store.History.Types.{File, FileHistory, Json, HistoryCall, LoadCall}
use etcd_studio.Store.History.Log.{save, new_file_history, close}
use etcd_studio.Store.History.Prune.{prune_key, prune}
use etcd_studio.Store.History.Indexed.{IsIndexed}
use etcd_studio.Store.History.Indexed.Saved.{
  SameMaps, SameMaps-Indexed, save-Indexed, new_file_history-Indexed,
}
use etcd_studio.Store.History.Indexed.Pruned.{prune-Indexed, prune_key-Indexed}

-- The histories that the operations lead to, one call after the other under the history's lock.
pub data Reach ⦃j : Json⦄ : FileHistory → Type 0 where
  opened :
      {h : FileHistory} (path : String) (file : Option File) (chmod_fails : Bool) (call : LoadCall)
      → new_file_history path file chmod_fails call ≡ ok h
      → Reach h
  saved :
      {h : FileHistory}
      → Reach h
      → (s : ValueSnapshot) (call : HistoryCall) → Reach (save s call h).1
  key_pruned :
      {h : FileHistory}
      → Reach h
      → (cluster_id : String) (key : Bytes) (keep : ℤ) (call : HistoryCall)
      → Reach (prune_key cluster_id key keep call h).1
  pruned :
      {h : FileHistory} → Reach h → (keep : ℤ) (call : HistoryCall) → Reach (prune keep call h).1
  closed : {h : FileHistory} → Reach h → (fails : Bool) → Reach (close fails h).1

module _ ⦃j : Json⦄ where
  close-maps : (fails : Bool) (h : FileHistory) → SameMaps h (close fails h).1
  unfolding close
  close-maps fails h = ground arith

  -- However a history was opened and whatever was saved, pruned and closed since, with every failure of
  -- the file system: each snapshot is in the list of its own key and was checked, no two of a key have
  -- one revision, and the set of seen keys holds exactly those of the stored snapshots.
  pub Reach-IsIndexed : {h : FileHistory} → Reach h → IsIndexed h.entries h.seen
  Reach-IsIndexed (opened {h = h} path file chmod_fails call e) =
      new_file_history-Indexed path file chmod_fails call h e
  Reach-IsIndexed (saved {h = h} r s call) = save-Indexed s call h (Reach-IsIndexed r)
  Reach-IsIndexed (key_pruned {h = h} r cluster_id key keep call) =
      prune_key-Indexed cluster_id key keep call h (Reach-IsIndexed r)
  Reach-IsIndexed (pruned {h = h} r keep call) = prune-Indexed keep call h (Reach-IsIndexed r)
  Reach-IsIndexed (closed {h = h} r fails) =
      SameMaps-Indexed h (close fails h).1 (close-maps fails h) (Reach-IsIndexed r)
