-- ===== src/Ring/Started.antt =====
-- src/zrtools/zrt_shm_ring.h: `Initialize` and `Reset` begin an empty log.
use zrtools.Ring.State.{Ring}
