-- ===== src/Streams.antt =====
-- jpstreams.py, usastreams.py and requests_jp.py: the measured tables of streams, and which of them
-- gate.py reads for a region.
mod Jp
mod Tagged
mod Requests
mod Sound
mod Gated
mod Tests
use street_fighter_alpha_2_n.Base.{ℕ, List, [], ◌∷◌, ◌++◌, sorted}
use street_fighter_alpha_2_n.Gate.{Entry, by_pair}
use street_fighter_alpha_2_n.Streams.Jp.{jp_streams}
use street_fighter_alpha_2_n.Streams.Tagged.{tagged}
use street_fighter_alpha_2_n.Streams.Requests.{jp_requests}

pub data Region : Type 0 where
  usa jp : Region

unfoldable pub harvested : List Entry
harvested = (0x19F8FE, 256) ∷ (0x1BED29, 64) ∷ []

-- `STREAMS` of usastreams.py
unfoldable pub usa_streams : List Entry
usa_streams = sorted by_pair (tagged ++ harvested)

-- gate.py's `table`
unfoldable pub table : Region → List Entry
table jp = sorted by_pair jp_streams
table usa = sorted by_pair usa_streams

-- gate.py's `requests`
unfoldable pub requests : Region → List Entry
requests jp = jp_requests
requests usa = []
