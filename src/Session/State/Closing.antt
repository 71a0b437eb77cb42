-- ===== src/Session/State/Closing.antt =====
-- paho/session/state/state.go: Close.
use paho_golang.Session.Storer.{Storer}
use paho_golang.Session.State.{Session}
