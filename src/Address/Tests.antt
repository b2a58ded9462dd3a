-- ===== src/Address/Tests.antt =====
-- `inetntoa` of src/irc_string.c on an address.
use igniteircd.Address.{InAddr}

abbrev address : InAddr
address = record { b1 = 192; b2 = 168; b3 = 0; b4 = 25 }
