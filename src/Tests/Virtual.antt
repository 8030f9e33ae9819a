-- ===== src/Tests/Virtual.antt =====
-- A virtual OCSSD with a shared and a whole channel.
use light_nvm.Base.{ℕ, ◌≡◌, refl, arith, List, [], ◌∷◌, ◌++◌, none, some, length, replicate}
use light_nvm.Wire.Cursor.{at}
use light_nvm.Vssd.Channel.{VirtualChannel}
use light_nvm.Vssd.Member.{NvmGeo}
use light_nvm.Vssd.Ssd.{VirtualOcssd, make, serialize, deserialize}
use light_nvm.Vssd.RoundTrip.Luns.{IsChannel}
use light_nvm.Vssd.RoundTrip.Whole.{IsVssd, vssd_size, vssd_round_trip, serialize-overflow}

abbrev pub geo : NvmGeo
geo = record {
  nchannels = 6;
  nluns = 2;
  nplanes = 2;
  nblocks = 8;
  npages = 4;
  nsectors = 4;
  page_nbytes = 16384;
  sector_nbytes = 4096;
  meta_nbytes = 16;
}

abbrev pub shared_channel : VirtualChannel
shared_channel = record {
  channel_id = 0;
  shared = 1;
  total_blocks = 6;
  num_luns = 2;
  luns =
      record { lun_id = 0; block_start = 0; num_blocks = 3 }
      ∷ record { lun_id = 1; block_start = 5; num_blocks = 3 }
      ∷ [];
}

abbrev pub whole_channel : VirtualChannel
whole_channel = record { channel_id = 4; shared = 0; total_blocks = 16; num_luns = 2; luns = [] }

-- "nvme1"
abbrev pub name : List ℕ
name = b'n' ∷ b'v' ∷ b'm' ∷ b'e' ∷ b'1' ∷ []

abbrev pub two_channels : VirtualOcssd
two_channels = record {
  id = 3;
  units =
      record { dev_name = name; geo = geo; channels = shared_channel ∷ whole_channel ∷ [] } ∷ [];
}

shared_channel-IsChannel : IsChannel shared_channel
shared_channel-IsChannel = record {
  id = omega arith;
  flag = omega arith;
  blocks = omega arith;
  count = omega arith;
  listed = λ e. refl;
  whole = λ ne. absurd (ne refl);
  luns_fit = omega arith;
}

whole_channel-IsChannel : IsChannel whole_channel
whole_channel-IsChannel = record {
  id = omega arith;
  flag = omega arith;
  blocks = omega arith;
  count = omega arith;
  listed = λ e. absurd (omega arith);
  whole = λ ne. refl;
  luns_fit = tt;
}

pub two_channels-IsVssd : IsVssd two_channels
two_channels-IsVssd = record {
  id_fits = omega arith;
  count = omega arith;
  units_fit = (
    record {
      text = omega arith;
      short = omega arith;
      geo_fits = omega arith;
      count = omega arith;
      channels_fit = (shared_channel-IsChannel, (whole_channel-IsChannel, tt));
    },
    tt,
  );
}

two_channels_size : vssd_size two_channels ≡ 156
two_channels_size = refl

vssd_round_trip_example :
    (out : List ℕ) × (rest : List ℕ) × (length out ≡ 156)
    × (serialize two_channels (at [] (replicate 200 7)) ≡ some (156, at out rest))
    × (deserialize geo make (at [] (out ++ rest)) ≡ some ((two_channels, 156), at out rest))
vssd_round_trip_example =
    vssd_round_trip two_channels geo (replicate 200 7) two_channels-IsVssd (omega arith)

serialize-overflow_example : serialize two_channels (at [] (replicate 100 7)) ≡ none
serialize-overflow_example =
    serialize-overflow two_channels (replicate 100 7) two_channels-IsVssd (omega arith)
