-- ===== src/Machines/Cmdline.antt =====
-- internal/machines/cmdline.go: what the kernel's command line says of the boot.
pub mod Laws
use zsys.Prelude.{Bool, true, false, not, List, [], ◌∷◌, ◌≡◌, refl, if◌then◌else◌}
use zsys.Text.{Bytes, codes, text_eq, trim_prefix, has_byte, fields, base}

abbrev pub kernel_prefix : Bytes
kernel_prefix = codes "BOOT_IMAGE="

abbrev pub zfs_root_prefix : Bytes
zfs_root_prefix = codes "root=ZFS="

abbrev pub zfs_revert_user_data_tag : Bytes
zfs_revert_user_data_tag = codes "zsys-revert=userdata"

-- One round of the loop over the entries, on the two named results.
boot_parameters_step : Bytes → Bytes → Bool → Bytes × Bool
boot_parameters_step entry root revert =
    let e = trim_prefix entry zfs_root_prefix in
    if not (text_eq entry e)
    then (e, revert)
    else if text_eq entry zfs_revert_user_data_tag
    then (root, true)
    else (root, revert)

boot_parameters_loop : List Bytes → Bytes → Bool → Bytes × Bool
boot_parameters_loop [] root revert = (root, revert)
boot_parameters_loop (entry ∷ entries) root revert =
    let (root', revert') = boot_parameters_step entry root revert in
    boot_parameters_loop entries root' revert'

unfoldable pub boot_parameters_from_cmdline : Bytes → Bytes × Bool
unfolding boot_parameters_loop boot_parameters_step
boot_parameters_from_cmdline cmdline = boot_parameters_loop (fields cmdline) [] false

kernel_loop : List Bytes → Bytes
kernel_loop [] = []
kernel_loop (entry ∷ entries) =
    let e = trim_prefix entry kernel_prefix in
    if text_eq e entry then kernel_loop entries else base e

unfoldable pub kernel_from_cmdline : Bytes → Bytes
unfolding kernel_loop
kernel_from_cmdline cmdline = kernel_loop (fields cmdline)

unfoldable pub has_booted_on_snapshot : Bytes → Bool
unfolding boot_parameters_from_cmdline
has_booted_on_snapshot cmdline = has_byte b'@' (boot_parameters_from_cmdline cmdline).0
