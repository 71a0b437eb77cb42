-- ===== src/Session/Storer.antt =====
-- paho/session/state/store.go: the interface `storer`. An error of Get, Delete, Quarantine or List is
-- none; Reset's is ignored by its only caller.
use paho_golang.Common.{ℕ, List, Option}
use paho_golang.Packets.Result.{Bytes}
use paho_golang.Packets.Control.{ControlPacket}

-- How Put ends: the store of package memory panics when the packet cannot be written.
pub data PutResult (A : Type 0) : Type 0 where
  stored : A → PutResult A
  put_failed put_panicked : PutResult A

-- Put is given the packet, whose WriteTo makes the bytes that are stored.
pub record Storer : Type 1 where
  pub Store : Type 0
  pub put : ℕ → ℕ → ControlPacket → Store → PutResult Store
  pub get : ℕ → Store → Option Bytes
  pub delete : ℕ → Store → Option Store
  pub quarantine : ℕ → Store → Option Store
  pub list : Store → Option (List ℕ)
  pub reset : Store → Store
