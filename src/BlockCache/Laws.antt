-- ===== src/BlockCache/Laws.antt =====
-- What the cache relies on of the driver of the attached device: a transfer that succeeds moves the
-- sector, a read changes no sector, a write that fails changes at most the sector it was for, and a
-- flush moves no data. What a read that fails leaves in the buffer is not restricted: the drivers
-- transfer straight into it.
use furi_os.Prelude.{ℕ, ◌≡◌, ◌≢◌, true, false, List, if◌then◌else◌, ◌==◌}
use furi_os.BlockCache.{Drivers, backend_rw, backend_flush}

module _ (d : Drivers) (kind : ℕ) where
  open d use {State}

  pub record Laws (sector : State → ℕ → List ℕ) : Type 0 where
    pub read_ok :
        (s : State) (a : ℕ) (buf : List ℕ)
        → (backend_rw d s kind a buf false).0 ≡ true
        → (backend_rw d s kind a buf false).1 ≡ sector s a
    pub read_keeps :
        (s : State) (a : ℕ) (buf : List ℕ) (b : ℕ)
        → sector (backend_rw d s kind a buf false).2 b ≡ sector s b
    pub write_ok :
        (s : State) (a : ℕ) (buf : List ℕ) (b : ℕ)
        → (backend_rw d s kind a buf true).0 ≡ true
        → sector (backend_rw d s kind a buf true).2 b ≡ (if b == a then buf else sector s b)
    pub write_fail :
        (s : State) (a : ℕ) (buf : List ℕ) (b : ℕ)
        → (backend_rw d s kind a buf true).0 ≡ false
        → b ≢ a
        → sector (backend_rw d s kind a buf true).2 b ≡ sector s b
    pub flush_keeps : (s : State) (b : ℕ) → sector (backend_flush d s kind).1 b ≡ sector s b
