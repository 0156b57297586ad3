-- ===== src/Vm/Fixture.antt =====
-- Data for the tests of the machine.
use ymd.Common.{[]}
use ymd.Kstr.{Kstr}
use ymd.Vm.State.{panic, Services}

abbrev no_name : Kstr
no_name = record { address = 0; hash = 0; land = [] }

-- Services that nothing of these runs asks for.
abbrev pub services : Services (Unit {0})
services = record {
  equals = λ h a b. panic;
  compare = λ h a b. panic;
  vm_match = λ h a b. panic;
  vm_get = λ h a b. panic;
  vm_put = λ h a b c. panic;
  getg = λ h a. panic;
  putg = λ h a b. panic;
  typeof_kstr = λ h a. (h, no_name);
  vm_strcat = λ h a b. (h, no_name);
  hmap_new = λ h n. (h, 0);
  skls_new = λ h. (h, 0);
  dyay_new = λ h n. (h, 0);
  dyay_add = λ h o v. h;
  func_clone = λ h f. panic;
  n_bind = λ h f. 0;
  func_bind = λ h f i v. panic;
  ymd_call = λ h st f n b. panic;
}
