-- ===== src/Viewer/Calls.antt =====
-- The calls of the manager of viewer_sessions.rs that change its sessions, and sequences of them. Each
-- call holds the registry's mutex, so that an interleaving of threads is such a sequence.
use document_studio.Base.{ℕ, String, Bool, List, [], ◌∷◌, Option}
use document_studio.Viewer.Sessions.{
  ViewerSessionManager, open_pdf, open_txt, open_verified_pdf, get, close, close_all,
  set_drop_enabled,
}
use document_studio.Viewer.Checks.{Inspection}

pub data Call : Type 0 where
  opens_pdf : (now : ℕ) (id : String) → Inspection → Call
  opens_txt : (now : ℕ) (id : String) → Inspection → Call
  opens_verified_pdf :
      (now : ℕ) (id : String) → Inspection → Option (ℕ × String) → ℕ → String → Call
  gets : (now : ℕ) (id : String) (generation : ℕ) → Call
  closes : (id : String) (generation : ℕ) → Call
  closes_all : Call
  sets_drop : Bool → Call

unfoldable pub perform : Call → ViewerSessionManager → ViewerSessionManager
perform (opens_pdf now id i) m = (open_pdf now id i m).0
perform (opens_txt now id i) m = (open_txt now id i m).0
perform (opens_verified_pdf now id i hashed size sha256) m =
    (open_verified_pdf now id i hashed size sha256 m).0
perform (gets now id generation) m = (get now id generation m).0
perform (closes id generation) m = (close id generation m).0
perform closes_all m = close_all m
perform (sets_drop enabled) m = set_drop_enabled enabled m

unfoldable pub run : List Call → ViewerSessionManager → ViewerSessionManager
run [] m = m
run (call ∷ calls) m = run calls (perform call m)
