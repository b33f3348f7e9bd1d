-- ===== src/Examples/Inventory.antt =====
-- crates/vdsm-host/src, crates/vdsm-virt/src and crates/vdsm-schema/build.rs: small texts and what is read
-- from them.
use vdsm_rs.Base.{
  ◌≡◌, refl, some, none, [], ◌∷◌, codes, negsuc, text_eq, starts_with, contains_byte,
}
use vdsm_rs.Encoding.Affix.{strip_prefix}
use vdsm_rs.Encoding.Decimal.{parse_usize, parse_word, to_string}
use vdsm_rs.Encoding.Split.{lines, split_on}
use vdsm_rs.Encoding.Trim.{trim, split_whitespace}
use vdsm_rs.Host.Dates.{iso_utc, civil, padded, year_of_era, day_of_year, month_part}
use vdsm_rs.Host.Files.{split_at}
use vdsm_rs.Host.Network.{netmask, mask_of, find_address, is_ipv4}
use vdsm_rs.Host.Numa.{cpu_list, cpu_part, inclusive, count_up}
use vdsm_rs.Host.Programs.{split_text, find_version}
use vdsm_rs.Schema.Loader.{parse_i64}
use vdsm_rs.Schema.Emit.{emit_type, emit_doc}
use vdsm_rs.Schema.{alias_kind}
use vdsm_rs.Storage.Devices.{trim_0x}
use vdsm_rs.Vm.Migration.{job_info, job_lines, job_line, counter}
use vdsm_rs.Vm.Reconcile.{memory_of, cpus_of, labelled, names_of}

netmask_runs : netmask (mask_of 24) ≡ codes "255.255.255.0"
unfolding netmask mask_of to_string starts_with
netmask_runs = refl

mask_of_all : mask_of 0 ≡ 0
unfolding mask_of
mask_of_all = refl

address_runs :
    find_address (split_whitespace (codes "5: wlp0 inet 192.168.0.99/24 brd 192.168.0.255"))
    ≡ (codes "192.168.0.99", codes "192.168.0.99/24", codes "255.255.255.0")
unfolding find_address split_whitespace split_at is_ipv4 split_on parse_word netmask mask_of
    to_string starts_with
address_runs = refl

cpu_list_runs : cpu_list (codes "0-3,8\n") ≡ 0 ∷ 1 ∷ 2 ∷ 3 ∷ 8 ∷ []
unfolding cpu_list cpu_part inclusive count_up split_on split_at trim parse_word
cpu_list_runs = refl

iso_utc_runs : iso_utc 951782400 ≡ codes "2000-02-29 00:00:00 -0000"
unfolding iso_utc civil padded year_of_era day_of_year month_part to_string
iso_utc_runs = refl

job_info_runs :
    job_info (codes "Data processed:   5 MiB\nData total:  20 MiB\n")
    ≡ record { total = 20; processed = 5; remaining = 0 }
unfolding job_info job_lines job_line counter lines trim strip_prefix split_whitespace parse_usize
job_info_runs = refl

fraction_reads_as_zero : counter (codes "   14.539 MiB") ≡ 0
unfolding counter split_whitespace parse_usize
fraction_reads_as_zero = refl

memory_of_runs : memory_of (codes "CPU(s):  4\nUsed memory:    2097152 KiB\n") ≡ 2048
unfolding memory_of labelled lines strip_prefix trim split_whitespace parse_usize
memory_of_runs = refl

cpus_of_runs : cpus_of (codes "CPU(s):  4\nUsed memory:    2097152 KiB\n") ≡ 4
unfolding cpus_of labelled lines strip_prefix trim parse_word
cpus_of_runs = refl

names_of_runs : names_of (codes "a\nb c\n\n") ≡ codes "a" ∷ codes "b c" ∷ []
unfolding names_of lines trim
names_of_runs = refl

trim_0x_runs : trim_0x (codes "0x0x5f") ≡ codes "5f"
unfolding trim_0x text_eq
trim_0x_runs = refl

parse_i64_runs : parse_i64 (codes "-5") ≡ some (negsuc 4)
unfolding parse_i64 parse_word
parse_i64_runs = refl

split_text_runs :
    split_text (codes "<m") 0 (codes "a<mb<mc") ≡ codes "a" ∷ codes "b" ∷ codes "c" ∷ []
unfolding split_text starts_with
split_text_runs = refl

find_version_runs :
    find_version (split_whitespace (codes "ovs-vsctl (Open vSwitch) 3.1.0,")) ≡ codes "3.1.0"
unfolding find_version split_whitespace contains_byte
find_version_runs = refl

emit_type_runs :
    emit_type (record {
      type_name = codes "A";
      kind = alias_kind (codes "i32");
      type_doc = some (codes "d");
      type_added = none;
    })
    ≡ codes "/// d\npub type A = i32;\n\n"
unfolding emit_type emit_doc split_on trim
emit_type_runs = refl
