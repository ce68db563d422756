-- ===== src/Packet.antt =====
-- Packets as the XDP programs of benchmarks/ see them: the bytes between ctx->data and
-- ctx->data_end. Accesses are checked: one outside the packet gives `none`. The layouts are those
-- of the kernel's headers (struct ethhdr, iphdr, ipv6hdr, udphdr) on a little-endian machine.
mod Access
pub use Access.*
