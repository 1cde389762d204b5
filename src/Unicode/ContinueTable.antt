-- ===== src/Unicode/ContinueTable.antt =====
-- The table `xid_continue_table` of cero/syntax/unicode.cc: the ranges in the order of the source.
use cero.Common.{List, [], ◌∷◌}
use cero.Unicode.Range.{UnicodeScalarRange, range}

unfoldable pub xid_continue_table : List UnicodeScalarRange
xid_continue_table =
    range 0x30 0x39
    ∷ range 0x41 0x5a
    ∷ range 0x5f 0x5f
    ∷ range 0x61 0x7a
    ∷ range 0xaa 0xaa
    ∷ range 0xb5 0xb5
    ∷ range 0xb7 0xb7
    ∷ range 0xba 0xba
    ∷ range 0xc0 0xd6
    ∷ range 0xd8 0xf6
    ∷ range 0xf8 0x2c1
    ∷ range 0x2c6 0x2d1
    ∷ range 0x2e0 0x2e4
    ∷ range 0x2ec 0x2ec
    ∷ range 0x2ee 0x2ee
    ∷ range 0x300 0x374
    ∷ range 0x376 0x377
    ∷ range 0x37b 0x37d
    ∷ range 0x37f 0x37f
    ∷ range 0x386 0x38a
    ∷ range 0x38c 0x38c
    ∷ range 0x38e 0x3a1
    ∷ range 0x3a3 0x3f5
    ∷ range 0x3f7 0x481
    ∷ range 0x483 0x487
    ∷ range 0x48a 0x52f
    ∷ range 0x531 0x556
    ∷ range 0x559 0x559
    ∷ range 0x560 0x588
    ∷ range 0x591 0x5bd
    ∷ range 0x5bf 0x5bf
    ∷ range 0x5c1 0x5c2
    ∷ range 0x5c4 0x5c5
    ∷ range 0x5c7 0x5c7
    ∷ range 0x5d0 0x5ea
    ∷ range 0x5ef 0x5f2
    ∷ range 0x610 0x61a
    ∷ range 0x620 0x669
    ∷ range 0x66e 0x6d3
    ∷ range 0x6d5 0x6dc
    ∷ range 0x6df 0x6e8
    ∷ range 0x6ea 0x6fc
    ∷ range 0x6ff 0x6ff
    ∷ range 0x710 0x74a
    ∷ range 0x74d 0x7b1
    ∷ range 0x7c0 0x7f5
    ∷ range 0x7fa 0x7fa
    ∷ range 0x7fd 0x7fd
    ∷ range 0x800 0x82d
    ∷ range 0x840 0x85b
    ∷ range 0x860 0x86a
    ∷ range 0x870 0x887
    ∷ range 0x889 0x88e
    ∷ range 0x897 0x8e1
    ∷ range 0x8e3 0x963
    ∷ range 0x966 0x96f
    ∷ range 0x971 0x983
    ∷ range 0x985 0x98c
    ∷ range 0x98f 0x990
    ∷ range 0x993 0x9a8
    ∷ range 0x9aa 0x9b0
    ∷ range 0x9b2 0x9b2
    ∷ range 0x9b6 0x9b9
    ∷ range 0x9bc 0x9c4
    ∷ range 0x9c7 0x9c8
    ∷ range 0x9cb 0x9ce
    ∷ range 0x9d7 0x9d7
    ∷ range 0x9dc 0x9dd
    ∷ range 0x9df 0x9e3
    ∷ range 0x9e6 0x9f1
    ∷ range 0x9fc 0x9fc
    ∷ range 0x9fe 0x9fe
    ∷ range 0xa01 0xa03
    ∷ range 0xa05 0xa0a
    ∷ range 0xa0f 0xa10
    ∷ range 0xa13 0xa28
    ∷ range 0xa2a 0xa30
    ∷ range 0xa32 0xa33
    ∷ range 0xa35 0xa36
    ∷ range 0xa38 0xa39
    ∷ range 0xa3c 0xa3c
    ∷ range 0xa3e 0xa42
    ∷ range 0xa47 0xa48
    ∷ range 0xa4b 0xa4d
    ∷ range 0xa51 0xa51
    ∷ range 0xa59 0xa5c
    ∷ range 0xa5e 0xa5e
    ∷ range 0xa66 0xa75
    ∷ range 0xa81 0xa83
    ∷ range 0xa85 0xa8d
    ∷ range 0xa8f 0xa91
    ∷ range 0xa93 0xaa8
    ∷ range 0xaaa 0xab0
    ∷ range 0xab2 0xab3
    ∷ range 0xab5 0xab9
    ∷ range 0xabc 0xac5
    ∷ range 0xac7 0xac9
    ∷ range 0xacb 0xacd
    ∷ range 0xad0 0xad0
    ∷ range 0xae0 0xae3
    ∷ range 0xae6 0xaef
    ∷ range 0xaf9 0xaff
    ∷ range 0xb01 0xb03
    ∷ range 0xb05 0xb0c
    ∷ range 0xb0f 0xb10
    ∷ range 0xb13 0xb28
    ∷ range 0xb2a 0xb30
    ∷ range 0xb32 0xb33
    ∷ range 0xb35 0xb39
    ∷ range 0xb3c 0xb44
    ∷ range 0xb47 0xb48
    ∷ range 0xb4b 0xb4d
    ∷ range 0xb55 0xb57
    ∷ range 0xb5c 0xb5d
    ∷ range 0xb5f 0xb63
    ∷ range 0xb66 0xb6f
    ∷ range 0xb71 0xb71
    ∷ range 0xb82 0xb83
    ∷ range 0xb85 0xb8a
    ∷ range 0xb8e 0xb90
    ∷ range 0xb92 0xb95
    ∷ range 0xb99 0xb9a
    ∷ range 0xb9c 0xb9c
    ∷ range 0xb9e 0xb9f
    ∷ range 0xba3 0xba4
    ∷ range 0xba8 0xbaa
    ∷ range 0xbae 0xbb9
    ∷ range 0xbbe 0xbc2
    ∷ range 0xbc6 0xbc8
    ∷ range 0xbca 0xbcd
    ∷ range 0xbd0 0xbd0
    ∷ range 0xbd7 0xbd7
    ∷ range 0xbe6 0xbef
    ∷ range 0xc00 0xc0c
    ∷ range 0xc0e 0xc10
    ∷ range 0xc12 0xc28
    ∷ range 0xc2a 0xc39
    ∷ range 0xc3c 0xc44
    ∷ range 0xc46 0xc48
    ∷ range 0xc4a 0xc4d
    ∷ range 0xc55 0xc56
    ∷ range 0xc58 0xc5a
    ∷ range 0xc5d 0xc5d
    ∷ range 0xc60 0xc63
    ∷ range 0xc66 0xc6f
    ∷ range 0xc80 0xc83
    ∷ range 0xc85 0xc8c
    ∷ range 0xc8e 0xc90
    ∷ range 0xc92 0xca8
    ∷ range 0xcaa 0xcb3
    ∷ range 0xcb5 0xcb9
    ∷ range 0xcbc 0xcc4
    ∷ range 0xcc6 0xcc8
    ∷ range 0xcca 0xccd
    ∷ range 0xcd5 0xcd6
    ∷ range 0xcdd 0xcde
    ∷ range 0xce0 0xce3
    ∷ range 0xce6 0xcef
    ∷ range 0xcf1 0xcf3
    ∷ range 0xd00 0xd0c
    ∷ range 0xd0e 0xd10
    ∷ range 0xd12 0xd44
    ∷ range 0xd46 0xd48
    ∷ range 0xd4a 0xd4e
    ∷ range 0xd54 0xd57
    ∷ range 0xd5f 0xd63
    ∷ range 0xd66 0xd6f
    ∷ range 0xd7a 0xd7f
    ∷ range 0xd81 0xd83
    ∷ range 0xd85 0xd96
    ∷ range 0xd9a 0xdb1
    ∷ range 0xdb3 0xdbb
    ∷ range 0xdbd 0xdbd
    ∷ range 0xdc0 0xdc6
    ∷ range 0xdca 0xdca
    ∷ range 0xdcf 0xdd4
    ∷ range 0xdd6 0xdd6
    ∷ range 0xdd8 0xddf
    ∷ range 0xde6 0xdef
    ∷ range 0xdf2 0xdf3
    ∷ range 0xe01 0xe3a
    ∷ range 0xe40 0xe4e
    ∷ range 0xe50 0xe59
    ∷ range 0xe81 0xe82
    ∷ range 0xe84 0xe84
    ∷ range 0xe86 0xe8a
    ∷ range 0xe8c 0xea3
    ∷ range 0xea5 0xea5
    ∷ range 0xea7 0xebd
    ∷ range 0xec0 0xec4
    ∷ range 0xec6 0xec6
    ∷ range 0xec8 0xece
    ∷ range 0xed0 0xed9
    ∷ range 0xedc 0xedf
    ∷ range 0xf00 0xf00
    ∷ range 0xf18 0xf19
    ∷ range 0xf20 0xf29
    ∷ range 0xf35 0xf35
    ∷ range 0xf37 0xf37
    ∷ range 0xf39 0xf39
    ∷ range 0xf3e 0xf47
    ∷ range 0xf49 0xf6c
    ∷ range 0xf71 0xf84
    ∷ range 0xf86 0xf97
    ∷ range 0xf99 0xfbc
    ∷ range 0xfc6 0xfc6
    ∷ range 0x1000 0x1049
    ∷ range 0x1050 0x109d
    ∷ range 0x10a0 0x10c5
    ∷ range 0x10c7 0x10c7
    ∷ range 0x10cd 0x10cd
    ∷ range 0x10d0 0x10fa
    ∷ range 0x10fc 0x1248
    ∷ range 0x124a 0x124d
    ∷ range 0x1250 0x1256
    ∷ range 0x1258 0x1258
    ∷ range 0x125a 0x125d
    ∷ range 0x1260 0x1288
    ∷ range 0x128a 0x128d
    ∷ range 0x1290 0x12b0
    ∷ range 0x12b2 0x12b5
    ∷ range 0x12b8 0x12be
    ∷ range 0x12c0 0x12c0
    ∷ range 0x12c2 0x12c5
    ∷ range 0x12c8 0x12d6
    ∷ range 0x12d8 0x1310
    ∷ range 0x1312 0x1315
    ∷ range 0x1318 0x135a
    ∷ range 0x135d 0x135f
    ∷ range 0x1369 0x1371
    ∷ range 0x1380 0x138f
    ∷ range 0x13a0 0x13f5
    ∷ range 0x13f8 0x13fd
    ∷ range 0x1401 0x166c
    ∷ range 0x166f 0x167f
    ∷ range 0x1681 0x169a
    ∷ range 0x16a0 0x16ea
    ∷ range 0x16ee 0x16f8
    ∷ range 0x1700 0x1715
    ∷ range 0x171f 0x1734
    ∷ range 0x1740 0x1753
    ∷ range 0x1760 0x176c
    ∷ range 0x176e 0x1770
    ∷ range 0x1772 0x1773
    ∷ range 0x1780 0x17d3
    ∷ range 0x17d7 0x17d7
    ∷ range 0x17dc 0x17dd
    ∷ range 0x17e0 0x17e9
    ∷ range 0x180b 0x180d
    ∷ range 0x180f 0x1819
    ∷ range 0x1820 0x1878
    ∷ range 0x1880 0x18aa
    ∷ range 0x18b0 0x18f5
    ∷ range 0x1900 0x191e
    ∷ range 0x1920 0x192b
    ∷ range 0x1930 0x193b
    ∷ range 0x1946 0x196d
    ∷ range 0x1970 0x1974
    ∷ range 0x1980 0x19ab
    ∷ range 0x19b0 0x19c9
    ∷ range 0x19d0 0x19da
    ∷ range 0x1a00 0x1a1b
    ∷ range 0x1a20 0x1a5e
    ∷ range 0x1a60 0x1a7c
    ∷ range 0x1a7f 0x1a89
    ∷ range 0x1a90 0x1a99
    ∷ range 0x1aa7 0x1aa7
    ∷ range 0x1ab0 0x1abd
    ∷ range 0x1abf 0x1ace
    ∷ range 0x1b00 0x1b4c
    ∷ range 0x1b50 0x1b59
    ∷ range 0x1b6b 0x1b73
    ∷ range 0x1b80 0x1bf3
    ∷ range 0x1c00 0x1c37
    ∷ range 0x1c40 0x1c49
    ∷ range 0x1c4d 0x1c7d
    ∷ range 0x1c80 0x1c8a
    ∷ range 0x1c90 0x1cba
    ∷ range 0x1cbd 0x1cbf
    ∷ range 0x1cd0 0x1cd2
    ∷ range 0x1cd4 0x1cfa
    ∷ range 0x1d00 0x1f15
    ∷ range 0x1f18 0x1f1d
    ∷ range 0x1f20 0x1f45
    ∷ range 0x1f48 0x1f4d
    ∷ range 0x1f50 0x1f57
    ∷ range 0x1f59 0x1f59
    ∷ range 0x1f5b 0x1f5b
    ∷ range 0x1f5d 0x1f5d
    ∷ range 0x1f5f 0x1f7d
    ∷ range 0x1f80 0x1fb4
    ∷ range 0x1fb6 0x1fbc
    ∷ range 0x1fbe 0x1fbe
    ∷ range 0x1fc2 0x1fc4
    ∷ range 0x1fc6 0x1fcc
    ∷ range 0x1fd0 0x1fd3
    ∷ range 0x1fd6 0x1fdb
    ∷ range 0x1fe0 0x1fec
    ∷ range 0x1ff2 0x1ff4
    ∷ range 0x1ff6 0x1ffc
    ∷ range 0x200c 0x200d
    ∷ range 0x203f 0x2040
    ∷ range 0x2054 0x2054
    ∷ range 0x2071 0x2071
    ∷ range 0x207f 0x207f
    ∷ range 0x2090 0x209c
    ∷ range 0x20d0 0x20dc
    ∷ range 0x20e1 0x20e1
    ∷ range 0x20e5 0x20f0
    ∷ range 0x2102 0x2102
    ∷ range 0x2107 0x2107
    ∷ range 0x210a 0x2113
    ∷ range 0x2115 0x2115
    ∷ range 0x2118 0x211d
    ∷ range 0x2124 0x2124
    ∷ range 0x2126 0x2126
    ∷ range 0x2128 0x2128
    ∷ range 0x212a 0x2139
    ∷ range 0x213c 0x213f
    ∷ range 0x2145 0x2149
    ∷ range 0x214e 0x214e
    ∷ range 0x2160 0x2188
    ∷ range 0x2c00 0x2ce4
    ∷ range 0x2ceb 0x2cf3
    ∷ range 0x2d00 0x2d25
    ∷ range 0x2d27 0x2d27
    ∷ range 0x2d2d 0x2d2d
    ∷ range 0x2d30 0x2d67
    ∷ range 0x2d6f 0x2d6f
    ∷ range 0x2d7f 0x2d96
    ∷ range 0x2da0 0x2da6
    ∷ range 0x2da8 0x2dae
    ∷ range 0x2db0 0x2db6
    ∷ range 0x2db8 0x2dbe
    ∷ range 0x2dc0 0x2dc6
    ∷ range 0x2dc8 0x2dce
    ∷ range 0x2dd0 0x2dd6
    ∷ range 0x2dd8 0x2dde
    ∷ range 0x2de0 0x2dff
    ∷ range 0x3005 0x3007
    ∷ range 0x3021 0x302f
    ∷ range 0x3031 0x3035
    ∷ range 0x3038 0x303c
    ∷ range 0x3041 0x3096
    ∷ range 0x3099 0x309a
    ∷ range 0x309d 0x309f
    ∷ range 0x30a1 0x30ff
    ∷ range 0x3105 0x312f
    ∷ range 0x3131 0x318e
    ∷ range 0x31a0 0x31bf
    ∷ range 0x31f0 0x31ff
    ∷ range 0x3400 0x4dbf
    ∷ range 0x4e00 0xa48c
    ∷ range 0xa4d0 0xa4fd
    ∷ range 0xa500 0xa60c
    ∷ range 0xa610 0xa62b
    ∷ range 0xa640 0xa66f
    ∷ range 0xa674 0xa67d
    ∷ range 0xa67f 0xa6f1
    ∷ range 0xa717 0xa71f
    ∷ range 0xa722 0xa788
    ∷ range 0xa78b 0xa7cd
    ∷ range 0xa7d0 0xa7d1
    ∷ range 0xa7d3 0xa7d3
    ∷ range 0xa7d5 0xa7dc
    ∷ range 0xa7f2 0xa827
    ∷ range 0xa82c 0xa82c
    ∷ range 0xa840 0xa873
    ∷ range 0xa880 0xa8c5
    ∷ range 0xa8d0 0xa8d9
    ∷ range 0xa8e0 0xa8f7
    ∷ range 0xa8fb 0xa8fb
    ∷ range 0xa8fd 0xa92d
    ∷ range 0xa930 0xa953
    ∷ range 0xa960 0xa97c
    ∷ range 0xa980 0xa9c0
    ∷ range 0xa9cf 0xa9d9
    ∷ range 0xa9e0 0xa9fe
    ∷ range 0xaa00 0xaa36
    ∷ range 0xaa40 0xaa4d
    ∷ range 0xaa50 0xaa59
    ∷ range 0xaa60 0xaa76
    ∷ range 0xaa7a 0xaac2
    ∷ range 0xaadb 0xaadd
    ∷ range 0xaae0 0xaaef
    ∷ range 0xaaf2 0xaaf6
    ∷ range 0xab01 0xab06
    ∷ range 0xab09 0xab0e
    ∷ range 0xab11 0xab16
    ∷ range 0xab20 0xab26
    ∷ range 0xab28 0xab2e
    ∷ range 0xab30 0xab5a
    ∷ range 0xab5c 0xab69
    ∷ range 0xab70 0xabea
    ∷ range 0xabec 0xabed
    ∷ range 0xabf0 0xabf9
    ∷ range 0xac00 0xd7a3
    ∷ range 0xd7b0 0xd7c6
    ∷ range 0xd7cb 0xd7fb
    ∷ range 0xf900 0xfa6d
    ∷ range 0xfa70 0xfad9
    ∷ range 0xfb00 0xfb06
    ∷ range 0xfb13 0xfb17
    ∷ range 0xfb1d 0xfb28
    ∷ range 0xfb2a 0xfb36
    ∷ range 0xfb38 0xfb3c
    ∷ range 0xfb3e 0xfb3e
    ∷ range 0xfb40 0xfb41
    ∷ range 0xfb43 0xfb44
    ∷ range 0xfb46 0xfbb1
    ∷ range 0xfbd3 0xfc5d
    ∷ range 0xfc64 0xfd3d
    ∷ range 0xfd50 0xfd8f
    ∷ range 0xfd92 0xfdc7
    ∷ range 0xfdf0 0xfdf9
    ∷ range 0xfe00 0xfe0f
    ∷ range 0xfe20 0xfe2f
    ∷ range 0xfe33 0xfe34
    ∷ range 0xfe4d 0xfe4f
    ∷ range 0xfe71 0xfe71
    ∷ range 0xfe73 0xfe73
    ∷ range 0xfe77 0xfe77
    ∷ range 0xfe79 0xfe79
    ∷ range 0xfe7b 0xfe7b
    ∷ range 0xfe7d 0xfe7d
    ∷ range 0xfe7f 0xfefc
    ∷ range 0xff10 0xff19
    ∷ range 0xff21 0xff3a
    ∷ range 0xff3f 0xff3f
    ∷ range 0xff41 0xff5a
    ∷ range 0xff65 0xffbe
    ∷ range 0xffc2 0xffc7
    ∷ range 0xffca 0xffcf
    ∷ range 0xffd2 0xffd7
    ∷ range 0xffda 0xffdc
    ∷ range 0x10000 0x1000b
    ∷ range 0x1000d 0x10026
    ∷ range 0x10028 0x1003a
    ∷ range 0x1003c 0x1003d
    ∷ range 0x1003f 0x1004d
    ∷ range 0x10050 0x1005d
    ∷ range 0x10080 0x100fa
    ∷ range 0x10140 0x10174
    ∷ range 0x101fd 0x101fd
    ∷ range 0x10280 0x1029c
    ∷ range 0x102a0 0x102d0
    ∷ range 0x102e0 0x102e0
    ∷ range 0x10300 0x1031f
    ∷ range 0x1032d 0x1034a
    ∷ range 0x10350 0x1037a
    ∷ range 0x10380 0x1039d
    ∷ range 0x103a0 0x103c3
    ∷ range 0x103c8 0x103cf
    ∷ range 0x103d1 0x103d5
    ∷ range 0x10400 0x1049d
    ∷ range 0x104a0 0x104a9
    ∷ range 0x104b0 0x104d3
    ∷ range 0x104d8 0x104fb
    ∷ range 0x10500 0x10527
    ∷ range 0x10530 0x10563
    ∷ range 0x10570 0x1057a
    ∷ range 0x1057c 0x1058a
    ∷ range 0x1058c 0x10592
    ∷ range 0x10594 0x10595
    ∷ range 0x10597 0x105a1
    ∷ range 0x105a3 0x105b1
    ∷ range 0x105b3 0x105b9
    ∷ range 0x105bb 0x105bc
    ∷ range 0x105c0 0x105f3
    ∷ range 0x10600 0x10736
    ∷ range 0x10740 0x10755
    ∷ range 0x10760 0x10767
    ∷ range 0x10780 0x10785
    ∷ range 0x10787 0x107b0
    ∷ range 0x107b2 0x107ba
    ∷ range 0x10800 0x10805
    ∷ range 0x10808 0x10808
    ∷ range 0x1080a 0x10835
    ∷ range 0x10837 0x10838
    ∷ range 0x1083c 0x1083c
    ∷ range 0x1083f 0x10855
    ∷ range 0x10860 0x10876
    ∷ range 0x10880 0x1089e
    ∷ range 0x108e0 0x108f2
    ∷ range 0x108f4 0x108f5
    ∷ range 0x10900 0x10915
    ∷ range 0x10920 0x10939
    ∷ range 0x10980 0x109b7
    ∷ range 0x109be 0x109bf
    ∷ range 0x10a00 0x10a03
    ∷ range 0x10a05 0x10a06
    ∷ range 0x10a0c 0x10a13
    ∷ range 0x10a15 0x10a17
    ∷ range 0x10a19 0x10a35
    ∷ range 0x10a38 0x10a3a
    ∷ range 0x10a3f 0x10a3f
    ∷ range 0x10a60 0x10a7c
    ∷ range 0x10a80 0x10a9c
    ∷ range 0x10ac0 0x10ac7
    ∷ range 0x10ac9 0x10ae6
    ∷ range 0x10b00 0x10b35
    ∷ range 0x10b40 0x10b55
    ∷ range 0x10b60 0x10b72
    ∷ range 0x10b80 0x10b91
    ∷ range 0x10c00 0x10c48
    ∷ range 0x10c80 0x10cb2
    ∷ range 0x10cc0 0x10cf2
    ∷ range 0x10d00 0x10d27
    ∷ range 0x10d30 0x10d39
    ∷ range 0x10d40 0x10d65
    ∷ range 0x10d69 0x10d6d
    ∷ range 0x10d6f 0x10d85
    ∷ range 0x10e80 0x10ea9
    ∷ range 0x10eab 0x10eac
    ∷ range 0x10eb0 0x10eb1
    ∷ range 0x10ec2 0x10ec4
    ∷ range 0x10efc 0x10f1c
    ∷ range 0x10f27 0x10f27
    ∷ range 0x10f30 0x10f50
    ∷ range 0x10f70 0x10f85
    ∷ range 0x10fb0 0x10fc4
    ∷ range 0x10fe0 0x10ff6
    ∷ range 0x11000 0x11046
    ∷ range 0x11066 0x11075
    ∷ range 0x1107f 0x110ba
    ∷ range 0x110c2 0x110c2
    ∷ range 0x110d0 0x110e8
    ∷ range 0x110f0 0x110f9
    ∷ range 0x11100 0x11134
    ∷ range 0x11136 0x1113f
    ∷ range 0x11144 0x11147
    ∷ range 0x11150 0x11173
    ∷ range 0x11176 0x11176
    ∷ range 0x11180 0x111c4
    ∷ range 0x111c9 0x111cc
    ∷ range 0x111ce 0x111da
    ∷ range 0x111dc 0x111dc
    ∷ range 0x11200 0x11211
    ∷ range 0x11213 0x11237
    ∷ range 0x1123e 0x11241
    ∷ range 0x11280 0x11286
    ∷ range 0x11288 0x11288
    ∷ range 0x1128a 0x1128d
    ∷ range 0x1128f 0x1129d
    ∷ range 0x1129f 0x112a8
    ∷ range 0x112b0 0x112ea
    ∷ range 0x112f0 0x112f9
    ∷ range 0x11300 0x11303
    ∷ range 0x11305 0x1130c
    ∷ range 0x1130f 0x11310
    ∷ range 0x11313 0x11328
    ∷ range 0x1132a 0x11330
    ∷ range 0x11332 0x11333
    ∷ range 0x11335 0x11339
    ∷ range 0x1133b 0x11344
    ∷ range 0x11347 0x11348
    ∷ range 0x1134b 0x1134d
    ∷ range 0x11350 0x11350
    ∷ range 0x11357 0x11357
    ∷ range 0x1135d 0x11363
    ∷ range 0x11366 0x1136c
    ∷ range 0x11370 0x11374
    ∷ range 0x11380 0x11389
    ∷ range 0x1138b 0x1138b
    ∷ range 0x1138e 0x1138e
    ∷ range 0x11390 0x113b5
    ∷ range 0x113b7 0x113c0
    ∷ range 0x113c2 0x113c2
    ∷ range 0x113c5 0x113c5
    ∷ range 0x113c7 0x113ca
    ∷ range 0x113cc 0x113d3
    ∷ range 0x113e1 0x113e2
    ∷ range 0x11400 0x1144a
    ∷ range 0x11450 0x11459
    ∷ range 0x1145e 0x11461
    ∷ range 0x11480 0x114c5
    ∷ range 0x114c7 0x114c7
    ∷ range 0x114d0 0x114d9
    ∷ range 0x11580 0x115b5
    ∷ range 0x115b8 0x115c0
    ∷ range 0x115d8 0x115dd
    ∷ range 0x11600 0x11640
    ∷ range 0x11644 0x11644
    ∷ range 0x11650 0x11659
    ∷ range 0x11680 0x116b8
    ∷ range 0x116c0 0x116c9
    ∷ range 0x116d0 0x116e3
    ∷ range 0x11700 0x1171a
    ∷ range 0x1171d 0x1172b
    ∷ range 0x11730 0x11739
    ∷ range 0x11740 0x11746
    ∷ range 0x11800 0x1183a
    ∷ range 0x118a0 0x118e9
    ∷ range 0x118ff 0x11906
    ∷ range 0x11909 0x11909
    ∷ range 0x1190c 0x11913
    ∷ range 0x11915 0x11916
    ∷ range 0x11918 0x11935
    ∷ range 0x11937 0x11938
    ∷ range 0x1193b 0x11943
    ∷ range 0x11950 0x11959
    ∷ range 0x119a0 0x119a7
    ∷ range 0x119aa 0x119d7
    ∷ range 0x119da 0x119e1
    ∷ range 0x119e3 0x119e4
    ∷ range 0x11a00 0x11a3e
    ∷ range 0x11a47 0x11a47
    ∷ range 0x11a50 0x11a99
    ∷ range 0x11a9d 0x11a9d
    ∷ range 0x11ab0 0x11af8
    ∷ range 0x11bc0 0x11be0
    ∷ range 0x11bf0 0x11bf9
    ∷ range 0x11c00 0x11c08
    ∷ range 0x11c0a 0x11c36
    ∷ range 0x11c38 0x11c40
    ∷ range 0x11c50 0x11c59
    ∷ range 0x11c72 0x11c8f
    ∷ range 0x11c92 0x11ca7
    ∷ range 0x11ca9 0x11cb6
    ∷ range 0x11d00 0x11d06
    ∷ range 0x11d08 0x11d09
    ∷ range 0x11d0b 0x11d36
    ∷ range 0x11d3a 0x11d3a
    ∷ range 0x11d3c 0x11d3d
    ∷ range 0x11d3f 0x11d47
    ∷ range 0x11d50 0x11d59
    ∷ range 0x11d60 0x11d65
    ∷ range 0x11d67 0x11d68
    ∷ range 0x11d6a 0x11d8e
    ∷ range 0x11d90 0x11d91
    ∷ range 0x11d93 0x11d98
    ∷ range 0x11da0 0x11da9
    ∷ range 0x11ee0 0x11ef6
    ∷ range 0x11f00 0x11f10
    ∷ range 0x11f12 0x11f3a
    ∷ range 0x11f3e 0x11f42
    ∷ range 0x11f50 0x11f5a
    ∷ range 0x11fb0 0x11fb0
    ∷ range 0x12000 0x12399
    ∷ range 0x12400 0x1246e
    ∷ range 0x12480 0x12543
    ∷ range 0x12f90 0x12ff0
    ∷ range 0x13000 0x1342f
    ∷ range 0x13440 0x13455
    ∷ range 0x13460 0x143fa
    ∷ range 0x14400 0x14646
    ∷ range 0x16100 0x16139
    ∷ range 0x16800 0x16a38
    ∷ range 0x16a40 0x16a5e
    ∷ range 0x16a60 0x16a69
    ∷ range 0x16a70 0x16abe
    ∷ range 0x16ac0 0x16ac9
    ∷ range 0x16ad0 0x16aed
    ∷ range 0x16af0 0x16af4
    ∷ range 0x16b00 0x16b36
    ∷ range 0x16b40 0x16b43
    ∷ range 0x16b50 0x16b59
    ∷ range 0x16b63 0x16b77
    ∷ range 0x16b7d 0x16b8f
    ∷ range 0x16d40 0x16d6c
    ∷ range 0x16d70 0x16d79
    ∷ range 0x16e40 0x16e7f
    ∷ range 0x16f00 0x16f4a
    ∷ range 0x16f4f 0x16f87
    ∷ range 0x16f8f 0x16f9f
    ∷ range 0x16fe0 0x16fe1
    ∷ range 0x16fe3 0x16fe4
    ∷ range 0x16ff0 0x16ff1
    ∷ range 0x17000 0x187f7
    ∷ range 0x18800 0x18cd5
    ∷ range 0x18cff 0x18d08
    ∷ range 0x1aff0 0x1aff3
    ∷ range 0x1aff5 0x1affb
    ∷ range 0x1affd 0x1affe
    ∷ range 0x1b000 0x1b122
    ∷ range 0x1b132 0x1b132
    ∷ range 0x1b150 0x1b152
    ∷ range 0x1b155 0x1b155
    ∷ range 0x1b164 0x1b167
    ∷ range 0x1b170 0x1b2fb
    ∷ range 0x1bc00 0x1bc6a
    ∷ range 0x1bc70 0x1bc7c
    ∷ range 0x1bc80 0x1bc88
    ∷ range 0x1bc90 0x1bc99
    ∷ range 0x1bc9d 0x1bc9e
    ∷ range 0x1ccf0 0x1ccf9
    ∷ range 0x1cf00 0x1cf2d
    ∷ range 0x1cf30 0x1cf46
    ∷ range 0x1d165 0x1d169
    ∷ range 0x1d16d 0x1d172
    ∷ range 0x1d17b 0x1d182
    ∷ range 0x1d185 0x1d18b
    ∷ range 0x1d1aa 0x1d1ad
    ∷ range 0x1d242 0x1d244
    ∷ range 0x1d400 0x1d454
    ∷ range 0x1d456 0x1d49c
    ∷ range 0x1d49e 0x1d49f
    ∷ range 0x1d4a2 0x1d4a2
    ∷ range 0x1d4a5 0x1d4a6
    ∷ range 0x1d4a9 0x1d4ac
    ∷ range 0x1d4ae 0x1d4b9
    ∷ range 0x1d4bb 0x1d4bb
    ∷ range 0x1d4bd 0x1d4c3
    ∷ range 0x1d4c5 0x1d505
    ∷ range 0x1d507 0x1d50a
    ∷ range 0x1d50d 0x1d514
    ∷ range 0x1d516 0x1d51c
    ∷ range 0x1d51e 0x1d539
    ∷ range 0x1d53b 0x1d53e
    ∷ range 0x1d540 0x1d544
    ∷ range 0x1d546 0x1d546
    ∷ range 0x1d54a 0x1d550
    ∷ range 0x1d552 0x1d6a5
    ∷ range 0x1d6a8 0x1d6c0
    ∷ range 0x1d6c2 0x1d6da
    ∷ range 0x1d6dc 0x1d6fa
    ∷ range 0x1d6fc 0x1d714
    ∷ range 0x1d716 0x1d734
    ∷ range 0x1d736 0x1d74e
    ∷ range 0x1d750 0x1d76e
    ∷ range 0x1d770 0x1d788
    ∷ range 0x1d78a 0x1d7a8
    ∷ range 0x1d7aa 0x1d7c2
    ∷ range 0x1d7c4 0x1d7cb
    ∷ range 0x1d7ce 0x1d7ff
    ∷ range 0x1da00 0x1da36
    ∷ range 0x1da3b 0x1da6c
    ∷ range 0x1da75 0x1da75
    ∷ range 0x1da84 0x1da84
    ∷ range 0x1da9b 0x1da9f
    ∷ range 0x1daa1 0x1daaf
    ∷ range 0x1df00 0x1df1e
    ∷ range 0x1df25 0x1df2a
    ∷ range 0x1e000 0x1e006
    ∷ range 0x1e008 0x1e018
    ∷ range 0x1e01b 0x1e021
    ∷ range 0x1e023 0x1e024
    ∷ range 0x1e026 0x1e02a
    ∷ range 0x1e030 0x1e06d
    ∷ range 0x1e08f 0x1e08f
    ∷ range 0x1e100 0x1e12c
    ∷ range 0x1e130 0x1e13d
    ∷ range 0x1e140 0x1e149
    ∷ range 0x1e14e 0x1e14e
    ∷ range 0x1e290 0x1e2ae
    ∷ range 0x1e2c0 0x1e2f9
    ∷ range 0x1e4d0 0x1e4f9
    ∷ range 0x1e5d0 0x1e5fa
    ∷ range 0x1e7e0 0x1e7e6
    ∷ range 0x1e7e8 0x1e7eb
    ∷ range 0x1e7ed 0x1e7ee
    ∷ range 0x1e7f0 0x1e7fe
    ∷ range 0x1e800 0x1e8c4
    ∷ range 0x1e8d0 0x1e8d6
    ∷ range 0x1e900 0x1e94b
    ∷ range 0x1e950 0x1e959
    ∷ range 0x1ee00 0x1ee03
    ∷ range 0x1ee05 0x1ee1f
    ∷ range 0x1ee21 0x1ee22
    ∷ range 0x1ee24 0x1ee24
    ∷ range 0x1ee27 0x1ee27
    ∷ range 0x1ee29 0x1ee32
    ∷ range 0x1ee34 0x1ee37
    ∷ range 0x1ee39 0x1ee39
    ∷ range 0x1ee3b 0x1ee3b
    ∷ range 0x1ee42 0x1ee42
    ∷ range 0x1ee47 0x1ee47
    ∷ range 0x1ee49 0x1ee49
    ∷ range 0x1ee4b 0x1ee4b
    ∷ range 0x1ee4d 0x1ee4f
    ∷ range 0x1ee51 0x1ee52
    ∷ range 0x1ee54 0x1ee54
    ∷ range 0x1ee57 0x1ee57
    ∷ range 0x1ee59 0x1ee59
    ∷ range 0x1ee5b 0x1ee5b
    ∷ range 0x1ee5d 0x1ee5d
    ∷ range 0x1ee5f 0x1ee5f
    ∷ range 0x1ee61 0x1ee62
    ∷ range 0x1ee64 0x1ee64
    ∷ range 0x1ee67 0x1ee6a
    ∷ range 0x1ee6c 0x1ee72
    ∷ range 0x1ee74 0x1ee77
    ∷ range 0x1ee79 0x1ee7c
    ∷ range 0x1ee7e 0x1ee7e
    ∷ range 0x1ee80 0x1ee89
    ∷ range 0x1ee8b 0x1ee9b
    ∷ range 0x1eea1 0x1eea3
    ∷ range 0x1eea5 0x1eea9
    ∷ range 0x1eeab 0x1eebb
    ∷ range 0x1fbf0 0x1fbf9
    ∷ range 0x20000 0x2a6df
    ∷ range 0x2a700 0x2b739
    ∷ range 0x2b740 0x2b81d
    ∷ range 0x2b820 0x2cea1
    ∷ range 0x2ceb0 0x2ebe0
    ∷ range 0x2ebf0 0x2ee5d
    ∷ range 0x2f800 0x2fa1d
    ∷ range 0x30000 0x3134a
    ∷ range 0x31350 0x323af
    ∷ range 0xe0100 0xe01ef
    ∷ []
