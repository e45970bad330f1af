-- ===== src/Machines/Tests.antt =====
-- Runs of the machines' functions at concrete inputs.
use zsys.Zfs.Samples.{plain}
use zsys.Prelude.{true, false, some, List, [], ◌∷◌, ◌≡◌, refl}
use zsys.Text.{Bytes, codes, text_eq, trim_prefix, has_prefix, has_byte, fields, base, join}
use zsys.Zfs.Names.{split_snapshot_name}
use zsys.Zfs.Dataset.{Dataset, dataset, nil}
use zsys.Machines.Tags.{new_tag}
use zsys.Machines.Tags.Laws.{new_tag-join}
use zsys.Machines.Cmdline.{boot_parameters_from_cmdline, kernel_from_cmdline}
use zsys.Machines.StateName.{unsupported_chars, validate_state_name}

revert_boot :
    boot_parameters_from_cmdline
      (codes "BOOT_IMAGE=/vmlinuz root=ZFS=rpool/ROOT/u@s ro zsys-revert=userdata")
    ≡ (codes "rpool/ROOT/u@s", true)
unfolding boot_parameters_from_cmdline fields text_eq trim_prefix
revert_boot = refl

kernel_name :
    kernel_from_cmdline (codes "ro BOOT_IMAGE=/ROOT/u@/boot/vmlinuz-5.4 quiet")
    ≡ codes "vmlinuz-5.4"
unfolding kernel_from_cmdline fields text_eq trim_prefix base
kernel_name = refl

repeated_invalid : validate_state_name (codes "a/b c/d") ≡ some (unsupported_chars (codes "/ "))
unfolding validate_state_name has_prefix has_byte
repeated_invalid = refl

split_nested : split_snapshot_name (codes "rpool/ROOT/u@a") ≡ (codes "rpool/ROOT/u", codes "a")
unfolding split_snapshot_name
split_nested = refl

abbrev revert_words : List Bytes
revert_words = codes "zsys-revert=userdata" ∷ []

new_tag_example :
    new_tag (codes "rpool/ROOT/u_b") (codes "rpool/ROOT/u_b,rpool/ROOT/u_a,rpool/ROOT/u_c")
    ≡ codes "rpool/ROOT/u_a"
unfolding join
new_tag_example =
    new_tag-join (codes "rpool/ROOT/u_b") (codes "rpool/ROOT/u_a") (codes "rpool/ROOT/u_b" ∷ [])
      (codes "rpool/ROOT/u_c" ∷ []) (unfold has_byte in (refl, (refl, (refl, tt))))
      (unfold text_eq in (refl, tt)) (unfold text_eq in refl)

abbrev named : Bytes → Dataset
named name = dataset name false plain nil

abbrev two_users : List Dataset
two_users = named (codes "r/USERDATA/a_1") ∷ named (codes "r/USERDATA/b_1") ∷ []

abbrev one_user : List Dataset
one_user = named (codes "r/USERDATA/a_1") ∷ []
