-- ===== src/Session/MemoryStorer.antt =====
-- paho/session/state/state.go: the memory store as the storer of NewInMemory.
use paho_golang.Common.{Option, none, some}
use paho_golang.Packets.Result.{Bytes, Result, ok, err}
use paho_golang.Packets.Control.{write_to}
use paho_golang.Session.MemoryStore.{Store, new_store, put, get, delete, quarantine, list, reset}
use paho_golang.Session.Storer.{Storer, PutResult, stored, put_panicked}
use paho_golang.Session.State.{Session, new_session}

-- The bytes that a packet is stored as; a packet that cannot be written makes Put panic.
abbrev pub bytes_of : Result Bytes → Option Bytes
bytes_of (ok bytes) = some bytes
bytes_of (err problem) = none

abbrev pub put_result : Option Store → PutResult Store
put_result none = put_panicked
put_result (some m) = stored m

abbrev pub memory_storer : Storer
memory_storer = record {
  Store = Store;
  put = λ id type c m. put_result (put id type (bytes_of (write_to c)) m);
  get = get;
  delete = delete;
  quarantine = quarantine;
  list = λ m. some (list m.data_map);
  reset = reset;
}

-- NewInMemory
unfoldable pub new_in_memory : Session memory_storer
unfolding new_session
new_in_memory = new_session memory_storer new_store new_store
