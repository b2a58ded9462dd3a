-- ===== src/Class/Tests.antt =====
-- The classes of src/class.c on a list with one Y line.
use igniteircd.Prelude.{◌≡◌, refl, pos}
use igniteircd.Class.{
  ClassList, Settings, add_class, add_or_update, update_first, add_behind, initclass,
}

abbrev servers : Settings
servers = record { class = pos 2; ping = pos 90; confreq = pos 300; maxli = pos 1; sendq = pos 0 }

abbrev users : Settings
users = record { class = pos 1; ping = pos 60; confreq = pos 10; maxli = pos 100; sendq = pos 9000 }

abbrev classes : ClassList
classes = add_class servers initclass

class_0 : classes.first.type ≡ pos 0
unfolding add_class initclass add_or_update update_first add_behind
class_0 = refl
